-- ===== src/Pipeline/Encode.antt =====
-- The loop over the packets that come loses none of them and sends none twice.
use sc_transport.Base.{
  ℕ, ◌+◌, ◌≡◌, refl, sym, ap, ◌∙◌, arith, Bool, true, false, some, List, [], ◌∷◌, ◌==◌, ==_refl,
  ==_iff, Bool-cases, inl, inr,
}
use sc_transport.Base.Count.{count, count-append}
use sc_transport.Base.HashMap
use sc_transport.Base.HashMap.{HashMap, get-put, get-remove}
use sc_transport.Base.HashSet.{contains, IsDistinct}
use sc_transport.Crates.{Crates}
use sc_transport.Packet.{Packet}
use sc_transport.Parity.{FecEncoder, or_default, upsert, stash_fec_packet}
use sc_transport.Parity.Stash.{seqs}
use sc_transport.Pipeline.{keys, drain_blocks, drain_fuel, encode_packet, encode_packets}
use sc_transport.Pipeline.Block.{is_parity, data_of, AreData}
use sc_transport.Pipeline.Drain.{drain_blocks-data}
use sc_transport.Pipeline.Stash.{
  total, has, contains-seqs, total-put, count-le-total, total-stash_fec_packet, keys-put-IsDistinct,
}

-- The stash has a place for each group, and only data packets.
abbrev pub IsStash : HashMap (List Packet) → Type 0
IsStash stash = IsDistinct (keys stash) × (total is_parity stash ≡ 0)

module _ (lib : Crates) (fec_of : ℕ → FecEncoder) where
  -- What is sent and what is stashed have the packets `before` the step, each as often.
  abbrev pub Keeps : ((Packet → Bool) → ℕ) → List Packet × HashMap (List Packet) → Type 0
  Keeps before r =
      IsStash r.1 × ((f : Packet → Bool) → count (data_of f) r.0 + total f r.1 ≡ before f)

  drained-Keeps :
      (stash : HashMap (List Packet)) (g : ℕ) (buf : List Packet)
      → HashMap.get stash g ≡ some buf
      → IsStash stash
      → let r = drain_blocks lib (drain_fuel buf) buf g (fec_of g) in
        Keeps (λ f. total f stash) (r.0, HashMap.put stash g r.1)
  drained-Keeps stash g buf at h =
      let r = drain_blocks lib (drain_fuel buf) buf g (fec_of g) in
      let buf_of : or_default (HashMap.get stash g) ≡ buf = ap or_default at in
      let chunks : AreData buf =
        omega (arith, count-le-total is_parity stash g, ap (count is_parity) buf_of, h.1) in
      let counts = λ (f : Packet → Bool).
        (let e : count (data_of f) r.0 + total f (HashMap.put stash g r.1) ≡ total f stash = omega (
          arith,
          drain_blocks-data lib g (fec_of g) (drain_fuel buf) buf chunks f,
          total-put f stash g r.1,
          ap (count f) buf_of,
        ) in
          e) in
      ((keys-put-IsDistinct stash g r.1 h.0, omega (arith, counts is_parity, h.1)), counts)

  stashed_IsStash :
      (stash : HashMap (List Packet)) (p : Packet)
      → p.is_parity ≡ false
      → count (has p.seq) (or_default (HashMap.get stash p.fec_group)) ≡ 0
      → IsStash stash
      → IsStash (stash_fec_packet stash p.fec_group p)
  unfolding stash_fec_packet
  stashed_IsStash stash p chunk new h =
      let buf = or_default (HashMap.get stash p.fec_group) in
      (
        keys-put-IsDistinct stash p.fec_group (upsert buf p) h.0,
        ground (
          arith,
          total-stash_fec_packet is_parity stash p.fec_group p (contains-seqs buf p.seq new),
        ),
      )

  encode_packet_stashed :
      (stash : HashMap (List Packet)) (p : Packet) (buf : List Packet)
      → HashMap.get (stash_fec_packet stash p.fec_group p) p.fec_group ≡ some buf
      → let r = drain_blocks lib (drain_fuel buf) buf p.fec_group (fec_of p.fec_group) in
        encode_packet lib fec_of stash p
        ≡ (r.0, HashMap.put (stash_fec_packet stash p.fec_group p) p.fec_group r.1)
  unfolding encode_packet
  encode_packet_stashed stash p buf at = rw (at, encode_packet) refl

  get_stashed :
      (stash : HashMap (List Packet)) (p : Packet)
      → HashMap.get (stash_fec_packet stash p.fec_group p) p.fec_group
        ≡ some (upsert (or_default (HashMap.get stash p.fec_group)) p)
  unfolding stash_fec_packet
  get_stashed stash p =
      let g = p.fec_group in
      get-put stash g g (upsert (or_default (HashMap.get stash g)) p) ∙ rw (==_refl g) refl

  encode_packet-Keeps :
      (stash : HashMap (List Packet)) (p : Packet)
      → p.is_parity ≡ false
      → total (has p.seq) stash ≡ 0
      → IsStash stash
      → Keeps (λ f. total f stash + count f (p ∷ [])) (encode_packet lib fec_of stash p)
  encode_packet-Keeps stash p chunk new h =
      let g = p.fec_group in
      let buf = or_default (HashMap.get stash g) in
      let unseen : count (has p.seq) buf ≡ 0 = omega (arith, count-le-total (has p.seq) stash g) in
      let (valid, counts) =
        drained-Keeps (stash_fec_packet stash g p) g (upsert buf p) (get_stashed stash p)
          (stashed_IsStash stash p chunk unseen h) in
      rw (encode_packet_stashed stash p (upsert buf p) (get_stashed stash p))
        (valid, λ f. counts f ∙ total-stash_fec_packet f stash g p (contains-seqs buf p.seq unseen))

  -- No packet of the list has a sequence number of the stash.
  abbrev pub AreNew : HashMap (List Packet) → List Packet → Type 0
  AreNew stash packets = (seq : ℕ) → contains (seqs packets) seq ≡ true → total (has seq) stash ≡ 0

  still_new :
      (stash : HashMap (List Packet)) (p : Packet) (packets : List Packet)
      (r : List Packet × HashMap (List Packet))
      → IsDistinct (seqs (p ∷ packets))
      → AreNew stash (p ∷ packets)
      → Keeps (λ f. total f stash + count f (p ∷ [])) r
      → AreNew r.1 packets
  unfolding contains
  still_new stash p packets r distinct new kept seq e = elim (Bool-cases (p.seq == seq)) [
    | inl same ↦
        let known : contains (seqs packets) p.seq ≡ true =
          ap (contains (seqs packets)) ((==_iff p.seq seq).0 same) ∙ e in
        absurd (let clash : true ≡ false = sym known ∙ distinct.0 in cc)
    | inr other ↦ ground (arith, kept.1 (has seq), new seq)
  ]

  pub encode_packets-Keeps :
      (stash : HashMap (List Packet)) (packets : List Packet)
      → AreData packets
      → IsDistinct (seqs packets)
      → AreNew stash packets
      → IsStash stash
      → Keeps (λ f. total f stash + count f packets) (encode_packets lib fec_of stash packets)
  unfolding encode_packets contains
  encode_packets-Keeps stash [] chunks distinct new h = (h, λ f. omega arith)
  encode_packets-Keeps stash (p ∷ packets) chunks distinct new h =
      let first = encode_packet lib fec_of stash p in
      let one =
        encode_packet-Keeps stash p (ground arith) (new p.seq (ground (arith, ==_refl p.seq))) h in
      let (valid, counts) =
        encode_packets-Keeps first.1 packets (ground arith) distinct.1
          (still_new stash p packets first distinct new one) one.0 in
      (
        valid,
        λ f. omega (
          arith,
          one.1 f,
          counts f,
          count-append (data_of f) first.0 (encode_packets lib fec_of first.1 packets).0,
        ),
      )
