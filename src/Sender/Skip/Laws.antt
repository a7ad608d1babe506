-- ===== src/Sender/Skip/Laws.antt =====
-- A chunk whose hash the receiver sent, and which is the same here, is left out.
use native.Mathlib.Decide.{ℕ_discrete}
use sc_transport.Base.{
  ℕ, zero, suc, ◌+◌, ◌*◌, ◌≤◌, ◌<◌, ◌≡◌, arith, true, false, some, List, [], ◌∷◌, length, take,
  drop, get_elem?, replicate, length-take, length-drop, range_from, ◌==◌, ok, >>=-eq-ok,
}
use sc_transport.Base.Bytes.{Bytes, same, same_refl}
use sc_transport.Base.HashSet.{HashSet, contains, contains-insert}
use sc_transport.Crates.{Crates}
use sc_transport.Wire.{ManifestAck}
use sc_transport.Sender.{SenderConfig, num_chunks}
use sc_transport.Sender.Geometry.{num_chunks_iff, read_chunk_range_lem}
use sc_transport.Sender.Skip.{collect, skip_chunk, skip_chunks, skipped}

some_hashes :
    (hashes : List Bytes) (i : ℕ) {h : Bytes}
    → get_elem? hashes i ≡ some h
    → (length hashes == 0) ≡ false
some_hashes [] i e = cc
some_hashes (x ∷ xs) i e = ground arith

module _ (lib : Crates) (config : SenderConfig) (pos : 0 < config.chunk_size) (file : Bytes)
    (ack : ManifestAck) where
  abbrev chunk_at : ℕ → Bytes
  chunk_at idx = take config.chunk_size (drop (idx * config.chunk_size) file)

  skip_chunk-keeps :
      (i j : ℕ) (s : HashSet) {t : HashSet}
      → skip_chunk lib config file (length file) ack i s ≡ ok t
      → contains s j ≡ true
      → contains t j ≡ true
  unfolding skip_chunk
  skip_chunk-keeps i j s h c =
      ground (arith, read_chunk_range_lem config file i, contains-insert s i j)

  skip_chunks-keeps :
      (is : List ℕ) (j : ℕ) (s : HashSet) {t : HashSet}
      → skip_chunks lib config file (length file) ack is s ≡ ok t
      → contains s j ≡ true
      → contains t j ≡ true
  unfolding skip_chunks
  skip_chunks-keeps [] j s h c = ground arith
  skip_chunks-keeps (i ∷ is) j s h c =
      let (u, ran, rest) = >>=-eq-ok (skip_chunk lib config file (length file) ack i s) _ h in
      skip_chunks-keeps is j u rest (skip_chunk-keeps i j s ran c)

  module _ (idx : ℕ) (inside : idx < num_chunks config (length file))
      (hashed : get_elem? ack.chunk_hashes idx ≡ some (lib.hash (chunk_at idx)))
      (known : same (lib.hash (chunk_at idx)) (replicate 32 0) ≡ false) where
    skip_chunk-contains :
        (s : HashSet) {t : HashSet}
        → skip_chunk lib config file (length file) ack idx s ≡ ok t
        → contains t idx ≡ true
    unfolding skip_chunk
    skip_chunk-contains s {t} h =
        let starts = (num_chunks_iff config (length file) idx pos).0 inside in
        let some_bytes : 0 < length (chunk_at idx) = omega (
          arith,
          length-take {0} config.chunk_size (drop (idx * config.chunk_size) file),
          length-drop {0} (idx * config.chunk_size) file,
        ) in
        ground (
          arith,
          hashed,
          known,
          some_bytes,
          read_chunk_range_lem config file idx,
          same_refl (lib.hash (chunk_at idx)),
          contains-insert s idx idx,
        )

    skip_chunks-contains :
        (from n : ℕ) (s : HashSet) {t : HashSet}
        → from ≤ idx
        → idx < from + n
        → skip_chunks lib config file (length file) ack (range_from from n) s ≡ ok t
        → contains t idx ≡ true
    unfolding skip_chunks
    skip_chunks-contains from zero s lo hi h = absurd (omega arith)
    skip_chunks-contains from (suc n) s lo hi h =
        let (u, ran, rest) = >>=-eq-ok (skip_chunk lib config file (length file) ack from s) _ h in
        elim (ℕ_discrete from idx) [
          | yes here ↦
              skip_chunks-keeps (range_from (suc from) n) idx u rest
                (skip_chunk-contains s (rw here at ran))
          | no later ↦ skip_chunks-contains (suc from) n u (omega arith) (omega arith) rest
        ]

    -- With a positive chunk size, a chunk of the file whose non-zero hash the receiver sent is
    -- among those that the sender leaves out, if it can read the chunks it compares.
    pub skipped-contains :
        {skip : HashSet}
        → skipped lib config file (length file) ack (num_chunks config (length file)) ≡ ok skip
        → contains skip idx ≡ true
    unfolding skipped
    skipped-contains h =
        skip_chunks-contains 0 (num_chunks config (length file)) (collect ack.received_chunks)
          (omega arith) (omega arith) (ground (arith, some_hashes ack.chunk_hashes idx hashed, h))
