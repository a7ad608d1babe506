-- ===== src/Pipeline/Drain.antt =====
-- The loop that drains a group block by block: it comes to its end, and loses no packet.
use sc_transport.Base.{
  ℕ, zero, suc, ◌+◌, ◌<◌, ◌≡◌, refl, arith, Bool, true, none, some, List, [], ◌∷◌, ◌++◌, length,
  inl, inr,
}
use sc_transport.Base.Count.{count, count-append}
use sc_transport.Crates.{Crates}
use sc_transport.Packet.{Packet}
use sc_transport.Parity.{FecEncoder, drain_block, drain_fec_block_from_packets, encode_block}
use sc_transport.Parity.Drain.{
  EndsInU64, IsDrained, drain_block_cases, length-group_indices, length-group_indices-le,
}
use sc_transport.Pipeline.{drain_blocks}
use sc_transport.Pipeline.Block.{is_parity, data_of, AreData, encode_block-data}

abbrev any : Packet → Bool
any p = true

length-eq-count : (ps : List Packet) → length ps ≡ count any ps
length-eq-count [] = refl
length-eq-count (p ∷ ps) = omega (arith, length-eq-count ps)

length-drained :
    (ps : List Packet) (g : ℕ) (fec : FecEncoder) (block left : List Packet)
    → IsDrained ps g fec block left
    → length ps ≡ length block + length left
length-drained ps g fec block left h =
    omega (arith, length-eq-count ps, length-eq-count block, length-eq-count left, h.shared any)

module _ (lib : Crates) (g : ℕ) (fec : FecEncoder) where
  drain_blocks-zero : (buf : List Packet) → drain_blocks lib zero buf g fec ≡ ([], buf)
  unfolding drain_blocks
  drain_blocks-zero buf = refl

  drain_blocks_drained :
      (fuel : ℕ) (buf block left : List Packet)
      → drain_block buf g fec ≡ some (block, left)
      → drain_blocks lib (suc fuel) buf g fec ≡ (
        encode_block lib fec block ++ (drain_blocks lib fuel left g fec).0,
        (drain_blocks lib fuel left g fec).1,
      )
  unfolding drain_blocks drain_fec_block_from_packets
  drain_blocks_drained fuel buf block left h = rw (h, drain_blocks) refl

  drain_blocks_missing :
      (fuel : ℕ) (buf : List Packet)
      → drain_block buf g fec ≡ none
      → drain_blocks lib (suc fuel) buf g fec ≡ ([], buf)
  unfolding drain_blocks drain_fec_block_from_packets
  drain_blocks_missing fuel buf h = rw (h, drain_blocks) refl

  -- What is sent and what is left have the packets of the stash, each as often.
  pub drain_blocks-data :
      (fuel : ℕ) (buf : List Packet)
      → AreData buf
      → (f : Packet → Bool)
      → let r = drain_blocks lib fuel buf g fec in count (data_of f) r.0 + count f r.1 ≡ count f buf
  drain_blocks-data zero buf chunks f = rw (drain_blocks-zero buf) (omega arith)
  drain_blocks-data (suc fuel) buf chunks f = elim (drain_block_cases buf g fec) [
    | inl missing ↦ rw (drain_blocks_missing fuel buf missing) (omega arith)
    | inr (block, (left, h)) ↦ rw (drain_blocks_drained fuel buf block left h.drained) (
        omega (
          arith,
          count-append (data_of f) (encode_block lib fec block)
              (drain_blocks lib fuel left g fec).0,
          encode_block-data lib fec block (omega (arith, h.size, length-group_indices-le fec g))
              (omega (arith, h.shared is_parity)) f,
          h.shared f,
          drain_blocks-data fuel left (omega (arith, h.shared is_parity)) f,
        ))
  ]

  -- With more rounds than packets, and a group whose chunks have indices below 2 ^ 64, the loop
  -- that drains the group has come to its end: no further block leaves the packets that it leaves.
  pub drain_blocks_ends :
      (fuel : ℕ) (buf : List Packet)
      → EndsInU64 fec g
      → length buf < fuel
      → drain_block (drain_blocks lib fuel buf g fec).1 g fec ≡ none
  drain_blocks_ends zero buf ends enough = absurd (omega arith)
  drain_blocks_ends (suc fuel) buf ends enough = elim (drain_block_cases buf g fec) [
    | inl missing ↦ rw (drain_blocks_missing fuel buf missing) missing
    | inr (block, (left, h)) ↦ rw (drain_blocks_drained fuel buf block left h.drained) (
        drain_blocks_ends fuel left ends (
          omega (
            arith,
            length-drained buf g fec block left h,
            h.size,
            length-group_indices fec g ends,
          )))
  ]
