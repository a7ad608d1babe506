-- ===== src/Pipeline/Flush.antt =====
-- The end of the task: the groups that are not complete are sent as they are, and nothing stays behind.
use sc_transport.Base.{
  ℕ, ◌≡◌, refl, ap, ◌∙◌, arith, Bool, false, none, some, List, [], ◌∷◌, ◌++◌, ◌==◌, if◌then◌else◌,
  Bool-cases, Option-cases, inl, inr,
}
use sc_transport.Base.Count.{count, count-append, count_without}
use sc_transport.Base.HashMap
use sc_transport.Base.HashMap.{HashMap, get-remove}
use sc_transport.Base.HashSet.{contains, IsDistinct}
use sc_transport.Crates.{Crates}
use sc_transport.Packet.{Packet}
use sc_transport.Parity.{FecEncoder, or_default}
use sc_transport.Parity.Stash.{seqs}
use sc_transport.Pipeline.{
  keys, drain_blocks, drain_fuel, encode_packets, flush_group, flush_groups, encode_task,
}
use sc_transport.Pipeline.Block.{is_parity, data_of, AreData}
use sc_transport.Pipeline.Drain.{drain_blocks-data}
use sc_transport.Pipeline.Stash.{
  total, count-le-total, total-remove, keys-remove-IsDistinct, total_of_none,
}
use sc_transport.Pipeline.Encode.{IsStash, Keeps, encode_packets-Keeps}

module _ (lib : Crates) (fec_of : ℕ → FecEncoder) where
  flush_group_absent :
      (stash : HashMap (List Packet)) (g : ℕ)
      → HashMap.get stash g ≡ none
      → flush_group lib fec_of stash g ≡ ([], stash)
  unfolding flush_group
  flush_group_absent stash g absent = rw (absent, flush_group) refl

  flush_group_present :
      (stash : HashMap (List Packet)) (g : ℕ) (buf : List Packet)
      → HashMap.get stash g ≡ some buf
      → let r = drain_blocks lib (drain_fuel buf) buf g (fec_of g) in
        flush_group lib fec_of stash g ≡ (r.0 ++ r.1, HashMap.remove stash g)
  unfolding flush_group
  flush_group_present stash g buf at = rw (at, flush_group) refl

  -- A group that is sent leaves the stash, and no other group does.
  abbrev Leaves : HashMap (List Packet) → ℕ → HashMap (List Packet) → Type 0
  Leaves stash g stash' =
      (j : ℕ) → HashMap.get stash' j ≡ (if g == j then none else HashMap.get stash j)

  present-Keeps :
      (stash : HashMap (List Packet)) (g : ℕ) (buf : List Packet)
      → HashMap.get stash g ≡ some buf
      → IsStash stash
      → let r = drain_blocks lib (drain_fuel buf) buf g (fec_of g) in
        Keeps lib fec_of (λ f. total f stash) (r.0 ++ r.1, HashMap.remove stash g)
  present-Keeps stash g buf at h =
      let r = drain_blocks lib (drain_fuel buf) buf g (fec_of g) in
      let buf_of : or_default (HashMap.get stash g) ≡ buf = ap or_default at in
      let chunks : AreData buf =
        omega (arith, count-le-total is_parity stash g, ap (count is_parity) buf_of, h.1) in
      let drained = drain_blocks-data lib g (fec_of g) (drain_fuel buf) buf chunks in
      let left : AreData r.1 = omega (arith, drained is_parity) in
      (
        (
          keys-remove-IsDistinct stash g h.0,
          omega (arith, total-remove is_parity stash g h.0, h.1),
        ),
        λ f. omega (
          arith,
          drained f,
          count-append (data_of f) r.0 r.1,
          count_without f is_parity r.1 left,
          total-remove f stash g h.0,
          ap (count f) buf_of,
        ),
      )

  flush_group-Keeps :
      (stash : HashMap (List Packet)) (g : ℕ)
      → IsStash stash
      → Keeps lib fec_of (λ f. total f stash) (flush_group lib fec_of stash g)
        × Leaves stash g (flush_group lib fec_of stash g).1
  flush_group-Keeps stash g h = elim (Option-cases (HashMap.get stash g)) [
    | inl absent ↦
        rw (flush_group_absent stash g absent) (
          (h, λ f. omega arith),
          λ j. ground (arith, absent, ap (HashMap.get stash) {x = g} {y = j}),
        )
    | inr (buf, at) ↦
        rw (flush_group_present stash g buf at)
          (present-Keeps stash g buf at h, λ j. get-remove stash g j)
  ]

  -- When all groups of a list were sent, none of them is in the stash.
  flush_groups-Keeps :
      (stash : HashMap (List Packet)) (groups : List ℕ)
      → IsStash stash
      → Keeps lib fec_of (λ f. total f stash) (flush_groups lib fec_of stash groups)
        × ((j : ℕ)
            → HashMap.get (flush_groups lib fec_of stash groups).1 j
              ≡ (if contains groups j then none else HashMap.get stash j))
  unfolding flush_groups contains
  flush_groups-Keeps stash [] h = ((h, λ f. omega arith), λ j. refl)
  flush_groups-Keeps stash (g ∷ groups) h =
      let first = flush_group lib fec_of stash g in
      let (one, leaves) = flush_group-Keeps stash g h in
      let (more, gone) = flush_groups-Keeps first.1 groups one.0 in
      (
        (
          more.0,
          λ f. omega (
            arith,
            one.1 f,
            more.1 f,
            count-append (data_of f) first.0 (flush_groups lib fec_of first.1 groups).0,
          ),
        ),
        λ j. ground (arith, gone j, leaves j),
      )

  contains-keys-get :
      (stash : HashMap (List Packet)) (g : ℕ)
      → contains (keys stash) g ≡ false
      → HashMap.get stash g ≡ none
  unfolding HashMap.get contains
  contains-keys-get [] g h = refl
  contains-keys-get ((j, buf) ∷ stash) g h = ground (arith, contains-keys-get stash g)

  -- For packets that are no parity packets and have different sequence numbers, whatever encoder
  -- each group has, and in whichever order the map goes through its groups: of the packets that
  -- the task sends and that are no parity packets, as many pass a test as of those that came, for
  -- every test.
  pub encode_task-data :
      (order : List ℕ → List ℕ) (packets : List Packet)
      → ((groups : List ℕ) (g : ℕ) → contains (order groups) g ≡ contains groups g)
      → AreData packets
      → IsDistinct (seqs packets)
      → (f : Packet → Bool)
      → count (data_of f) (encode_task lib fec_of order packets) ≡ count f packets
  unfolding encode_task
  encode_task-data order packets all chunks distinct f =
      let sent = encode_packets lib fec_of [] packets in
      let came =
        encode_packets-Keeps lib fec_of [] packets chunks distinct (λ seq e. refl) (tt, refl) in
      let groups = order (keys sent.1) in
      let (kept, gone) = flush_groups-Keeps sent.1 groups came.0 in
      let flushed = flush_groups lib fec_of sent.1 groups in
      let empty : total f flushed.1 ≡ 0 = total_of_none f flushed.1 λ g e.
        elim (Bool-cases (contains (keys sent.1) g)) [
          | inl here ↦ gone g ∙ rw (all (keys sent.1) g, here) refl
          | inr absent ↦
              gone g ∙ rw (all (keys sent.1) g, absent) (contains-keys-get sent.1 g absent)
        ] in
      omega (arith, count-append (data_of f) sent.0 flushed.0, came.1 f, kept.1 f, empty)
