-- ===== src/Compress/Laws.antt =====
-- Compression never grows a chunk, and the length tells whether a chunk was compressed.
use sc_transport.Base.{
  ◌≤◌, ◌<◌, ◌≡◌, ap, arith, true, length, ltb, ok, if◌then◌else◌, Bool-cases, inl, inr,
}
use sc_transport.Base.Bytes.{Bytes}
use sc_transport.Crates.{Crates, ZstdRoundTrips}
use sc_transport.Wire.{CompressionType}
use sc_transport.Compress.{is_likely_compressed, maybe_compress, maybe_decompress}

module _ (lib : Crates) where
  -- `maybe_compress` never makes a chunk longer, in either mode.
  pub length-maybe_compress :
      (raw : Bytes) (mode : CompressionType) {out : Bytes}
      → maybe_compress lib raw mode ≡ ok out
      → length out ≤ length raw
  unfolding maybe_compress
  length-maybe_compress raw CompressionType.none h = ground arith
  length-maybe_compress raw (CompressionType.zstd level) h = ground arith

  -- A chunk that did not get shorter was passed through.
  pub maybe_compress_passthrough :
      (raw : Bytes) (mode : CompressionType) {out : Bytes}
      → maybe_compress lib raw mode ≡ ok out
      → length raw ≤ length out
      → out ≡ raw
  unfolding maybe_compress
  maybe_compress_passthrough raw CompressionType.none h le = ground arith
  maybe_compress_passthrough raw (CompressionType.zstd level) h le = ground arith

  looks_compressed :
      (raw : Bytes) (mode : CompressionType) {out : Bytes}
      → maybe_compress lib raw mode ≡ ok out
      → is_likely_compressed raw ≡ true
      → out ≡ raw
  unfolding maybe_compress
  looks_compressed raw CompressionType.none h likely = ground arith
  looks_compressed raw (CompressionType.zstd level) h likely = ground (arith, likely)

  -- If zstd round-trips: a chunk that `maybe_compress` made shorter is restored by
  -- `maybe_decompress` in the same mode.
  pub maybe_decompress-maybe_compress :
      ZstdRoundTrips lib
      → (raw : Bytes) (mode : CompressionType) {out : Bytes} → maybe_compress lib raw mode ≡ ok out
      → length out < length raw
      → maybe_decompress lib out mode ≡ ok raw
  unfolding maybe_compress maybe_decompress
  maybe_decompress-maybe_compress rt raw CompressionType.none h lt = ground arith
  maybe_decompress-maybe_compress rt raw (CompressionType.zstd level) {out} h lt =
      ground (arith, rt.decode-encode raw out level)

  -- If zstd round-trips: what `maybe_compress` gives is never longer than the chunk. If it is
  -- shorter, `maybe_decompress` in the same mode restores the chunk, and if it is as long, it is
  -- the chunk, as it always is for a chunk that begins like a compressed format.
  pub maybe_compress_restores :
      ZstdRoundTrips lib
      → (raw : Bytes) (mode : CompressionType) {out : Bytes} → maybe_compress lib raw mode ≡ ok out
      → (length out ≤ length raw)
        × ((if ltb (length out) (length raw) then maybe_decompress lib out mode else ok out)
            ≡ ok raw)
        × (is_likely_compressed raw ≡ true → out ≡ raw)
  maybe_compress_restores rt raw mode {out} h = (
    length-maybe_compress raw mode h,
    elim (Bool-cases (ltb (length out) (length raw))) [
      | inl shorter ↦
          rw shorter (maybe_decompress-maybe_compress rt raw mode h (ground (arith, shorter)))
      | inr as_long ↦
          rw as_long (ap ok (maybe_compress_passthrough raw mode h (ground (arith, as_long))))
    ],
    looks_compressed raw mode h,
  )
