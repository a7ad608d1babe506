-- ===== src/Sender/Geometry.antt =====
-- The chunks of a file cover it: their lengths, their number, and their bytes.
use native.Mathlib.Nat.{div-add-mod}
use native.Mathlib.Decide.{dec_lt}
use sc_transport.Base.{
  ℕ, zero, suc, ◌+◌, ◌-◌, ◌*◌, ◌<◌, min, ◌≡◌, ◌↔◌, refl, arith, [], ◌++◌, length, take, drop,
  length-drop, leb, leb→le, ltb, false, Bool-cases, inl, inr, take-nil, take-min-length,
  take-append-take-drop, take_of_length-le, Result, ok, ◌>>=◌, drop_of_length-le,
}
use sc_transport.Base.Bytes.{Bytes}
use sc_transport.Sender.{SenderConfig, SendError, num_chunks, chunk_len, read_chunk_range}

module _ (config : SenderConfig) where
  -- With a positive chunk size, an index is below `num_chunks` exactly when its chunk starts
  -- inside of the file.
  pub num_chunks_iff :
      (total idx : ℕ)
      → 0 < config.chunk_size
      → (idx < num_chunks config total) ↔ (idx * config.chunk_size < total)
  unfolding num_chunks
  num_chunks_iff total idx pos = (λ h. grind (arith, div-add-mod), λ h. grind (arith, div-add-mod))

  -- The lengths of the first chunks, added up.
  pub chunk_lens : ℕ → ℕ → ℕ
  chunk_lens total zero = 0
  chunk_lens total (suc n) = chunk_lens total n + chunk_len config n total

  -- The lengths of the first `n` chunks add up to the size of `n` full chunks, or to the size of
  -- the file if that is less.
  pub chunk_lens-eq-min : (total n : ℕ) → chunk_lens total n ≡ min total (n * config.chunk_size)
  unfolding chunk_lens chunk_len
  chunk_lens-eq-min total zero = ground arith
  chunk_lens-eq-min total (suc n) = ground (arith, chunk_lens-eq-min total n)

  -- A chunk of an unchanged file is the bytes at its place, as many as `chunk_len` says.
  pub read_chunk_range_lem :
      (file : Bytes) (idx : ℕ)
      → read_chunk_range config file idx (length file)
        ≡ ok (take config.chunk_size (drop (idx * config.chunk_size) file))
  unfolding read_chunk_range
  read_chunk_range_lem file idx =
      let off = idx * config.chunk_size in
      let rest = drop off file in
      elim (Bool-cases (leb (length file) off)) [
        | inl past ↦ rw (past, drop_of_length-le off file (leb→le _ _ past), take-nil) refl
        | inr inside ↦
            let fits : ltb (length file) (off + min (length file - off) config.chunk_size) ≡ false =
              ground (arith, inside) in
            rw (inside, fits, ← length-drop off file, take-min-length config.chunk_size rest) refl
      ]

  -- The first `n` chunks, read one after the other.
  pub read_chunks : Bytes → ℕ → Result SendError Bytes
  read_chunks file zero = ok []
  read_chunks file (suc n) = do
    before ← read_chunks file n
    chunk ← read_chunk_range config file n (length file)
    ok (before ++ chunk)

  read_chunks-take :
      (file : Bytes) (n : ℕ) → read_chunks file n ≡ ok (take (n * config.chunk_size) file)
  unfolding read_chunks
  read_chunks-take file zero = let e : 0 * config.chunk_size ≡ 0 = omega arith in rw e refl
  read_chunks-take file (suc n) =
      let cs = config.chunk_size in
      let e : n * cs + cs ≡ suc n * cs = omega arith in
      rw (
        read_chunks-take file n,
        read_chunk_range_lem file n,
        take-append-take-drop (n * cs) cs file,
        e,
      )

  -- With a positive chunk size, the `num_chunks` chunks of a file, read one after the other, are
  -- the file.
  pub read_chunks-num_chunks :
      (file : Bytes)
      → 0 < config.chunk_size
      → read_chunks file (num_chunks config (length file)) ≡ ok file
  read_chunks-num_chunks file pos =
      let n = num_chunks config (length file) in
      elim (dec_lt (n * config.chunk_size) (length file)) [
        | yes less ↦ absurd (omega (arith, (num_chunks_iff (length file) n pos).1 less))
        | no more ↦
            rw (
              read_chunks-take file n,
              take_of_length-le (n * config.chunk_size) file (omega arith),
            )
      ]
