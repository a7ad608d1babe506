-- ===== src/Pipeline/Block.antt =====
-- A block that is encoded has the packets of the block, and parity packets.
use sc_transport.Base.{
  ℕ, ◌+◌, ◌≤◌, ◌≡◌, refl, ap, ◌∙◌, arith, Bool, true, not, ◌&&◌, Option, none, some, List, [], ◌∷◌,
  ◌++◌, length, take, take_of_length-le, if◌then◌else◌, Bool-cases, inl, inr, Result, ok, err,
  >>=-eq-ok,
}
use sc_transport.Base.Bytes.{Bytes}
use sc_transport.Base.Count.{count, count-append, count_without, count_all_without}
use sc_transport.Crates.{Crates}
use sc_transport.Packet.{Packet}
use sc_transport.Parity.{
  FecEncoder, frame_fec_wire_shard, insert_by_seq, sort_by_seq, max_payload, parity_packet,
  parity_packets, encode_sorted, encode_block,
}
use sc_transport.Wire.Frame.{FrameError}
use sc_transport.Parity.Drain.{shards_of}

abbrev pub is_parity : Packet → Bool
is_parity p = p.is_parity

-- the packets that pass a test and are no parity packets
abbrev pub data_of : (Packet → Bool) → Packet → Bool
data_of f p = f p && not p.is_parity

abbrev pub AreData : List Packet → Type 0
AreData ps = count is_parity ps ≡ 0

pub count-sort_by_seq :
    (f : Packet → Bool) (ps : List Packet) → count f (sort_by_seq ps) ≡ count f ps
unfolding sort_by_seq insert_by_seq
count-sort_by_seq f [] = refl
count-sort_by_seq f (p ∷ ps) =
    omega (arith, count-insert_by_seq f p (sort_by_seq ps), count-sort_by_seq f ps)
  where
    count-insert_by_seq :
        (f : Packet → Bool) (p : Packet) (ps : List Packet)
        → count f (insert_by_seq p ps) ≡ (if f p then 1 else 0) + count f ps
    count-insert_by_seq f p [] = refl
    count-insert_by_seq f p (q ∷ ps) = ground (arith, count-insert_by_seq f p ps)

parity_case :
    (block ps : List Packet) (f : Packet → Bool)
    → AreData block
    → count is_parity ps ≡ length ps
    → count (data_of f) (block ++ ps) ≡ count f block
parity_case block ps f chunks parity = omega (
  arith,
  count-append (data_of f) block ps,
  count_without f is_parity block chunks,
  count_all_without f is_parity ps parity,
)

module _ (lib : Crates) (enc : FecEncoder) where
  parity_packet-is_parity :
      (block : List Packet) (i : ℕ) (row : Bytes) (p : Packet)
      → parity_packet lib enc block i row ≡ ok p
      → p.is_parity ≡ true
  unfolding parity_packet
  parity_packet-is_parity block i row p h =
      let (framed, _, made) = >>=-eq-ok (frame_fec_wire_shard lib _ 0 row true i _) _ h in
      ground arith

  parity_packets-is_parity :
      (block : List Packet) (i : ℕ) (rows : List Bytes) (packets : List Packet)
      → parity_packets lib enc block i rows ≡ ok packets
      → count is_parity packets ≡ length packets
  unfolding parity_packets
  parity_packets-is_parity block i [] packets h = ground arith
  parity_packets-is_parity block i (row ∷ rows) packets h =
      let (p, one, h') = >>=-eq-ok (parity_packet lib enc block i row) _ h in
      let (ps, more, made) = >>=-eq-ok (parity_packets lib enc block (i + 1) rows) _ h' in
      ground (
        arith,
        parity_packet-is_parity block i row p one,
        parity_packets-is_parity block (i + 1) rows ps more,
      )

  encode_sorted-data :
      (n len : ℕ) (block whole : List Packet)
      → ((f : Packet → Bool) → count f block ≡ count f whole)
      → AreData whole
      → (f : Packet → Bool)
      → count (data_of f) (encode_sorted lib enc n len block whole) ≡ count f whole
  unfolding encode_sorted
  encode_sorted-data n len block whole same chunks f =
      let kept = count_without f is_parity whole chunks in
      elim (Bool-cases (lib.rs_new n enc.parity_shards)) [
        | inl made ↦ rw made (rows_case (lib.rs_encode n enc.parity_shards _) kept)
        | inr failed ↦ rw failed kept
      ]
    where
      packets_case :
          (rows : List Bytes) (made : Result FrameError (List Packet))
          → parity_packets lib enc block 0 rows ≡ made
          → count (data_of f) whole ≡ count f whole
          → count (data_of f) (elim made [ err _ ↦ whole | ok parity ↦ block ++ parity ])
            ≡ count f whole
      packets_case rows (err e) h kept = kept
      packets_case rows (ok parity) h kept =
          parity_case block parity f (same is_parity ∙ chunks)
            (parity_packets-is_parity block 0 rows parity h)
          ∙ same f

      rows_case :
          (encoded : Option (List Bytes))
          → count (data_of f) whole ≡ count f whole
          → count (data_of f) (elim encoded [
            | none ↦ whole
            | some rows ↦ elim (parity_packets lib enc block 0 rows) [
              | err _ ↦ whole
              | ok parity ↦ block ++ parity
            ]
          ])
            ≡ count f whole
      rows_case none kept = kept
      rows_case (some rows) kept = packets_case rows (parity_packets lib enc block 0 rows) refl kept

  -- The data packets of an encoded block are those of the block, each as often.
  pub encode_block-data :
      (whole : List Packet)
      → length whole ≤ shards_of enc
      → AreData whole
      → (f : Packet → Bool) → count (data_of f) (encode_block lib enc whole) ≡ count f whole
  unfolding encode_block
  encode_block-data [] fits chunks f = ground arith
  encode_block-data (p ∷ ps) fits chunks f =
      let n = shards_of enc in
      let all = take_of_length-le n (p ∷ ps) fits in
      let sorted = λ (g : Packet → Bool).
        ap (λ (block : List Packet). count g (sort_by_seq block)) all
        ∙ count-sort_by_seq g (p ∷ ps) in
      let block = sort_by_seq (take n (p ∷ ps)) in
      ground (
        arith,
        sorted f,
        count_without f is_parity block (sorted is_parity ∙ chunks),
        count_without f is_parity (p ∷ ps) chunks,
        encode_sorted-data n (max_payload block) block (p ∷ ps) sorted chunks f,
      )
