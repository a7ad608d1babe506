-- ===== src/Receiver/Persist.antt =====
-- What the receiver does with the frame of a data chunk that the sender made.
use native.Mathlib.Nat.{mod-eq_of_lt}
use sc_transport.Base.{
  ℕ, ◌+◌, ◌*◌, ◌<◌, ◌^◌, ◌%◌, ◌≡◌, refl, some, Bool, false, not, ◌&&◌, ◌++◌, arith, length, ltb,
  le→ltb, if◌then◌else◌, Result, ok, ◌>>=◌,
}
use sc_transport.Base.Bytes.{Bytes, slice, same, same_refl}
use sc_transport.Base.HashSet.{contains, insert}
use sc_transport.Crates.{Crates, IsFaithful}
use sc_transport.Wire.{TransferManifest}
use sc_transport.Wire.Frame.{encode}
use sc_transport.Compress.{maybe_compress}
use sc_transport.Compress.Laws.{
  length-maybe_compress, maybe_compress_passthrough, maybe_decompress-maybe_compress,
}
use sc_transport.Sender.{SenderConfig, frame_bytes, frame_chunk, chunk_descriptor}
use sc_transport.Receiver.{
  ReceiveError, Received, seek_write, chunk_bytes, store_chunk, persist_data_chunk,
  persist_framed_chunk,
}
use sc_transport.Receiver.Header.{
  length-frame_bytes, slice_payload, parse_framed_header-frame_bytes,
}

-- A chunk that is there already is left alone; another is written at its offset and noted.
abbrev pub stored_raw : SenderConfig → ℕ → Bytes → Received → Result ReceiveError Received
stored_raw config idx raw s = if contains s.received_chunks idx then ok s else (do
  out ← seek_write s.out (idx * config.chunk_size) raw
  ok (record { out = out; received_chunks = insert s.received_chunks idx }))

module _ (lib : Crates) (faithful : IsFaithful lib) (config : SenderConfig)
    (manifest : TransferManifest) (agree : manifest.compression ≡ config.compression) where
  chunk_bytes-maybe_compress :
      (idx : ℕ) (raw chunk : Bytes)
      → maybe_compress lib raw config.compression ≡ ok chunk
      → chunk_bytes lib manifest (chunk_descriptor lib config manifest idx raw chunk) chunk ≡ ok raw
  unfolding chunk_bytes chunk_descriptor
  chunk_bytes-maybe_compress idx raw chunk h = ground (
    arith,
    maybe_compress_passthrough lib raw config.compression h,
    maybe_decompress-maybe_compress lib faithful.zstd raw config.compression h,
  )

  pub frame_chunk_parts :
      (idx : ℕ) (raw : Bytes) {wire : Bytes}
      → frame_chunk lib config idx raw manifest ≡ ok wire
      → (chunk desc_bytes : Bytes) × (maybe_compress lib raw config.compression ≡ ok chunk)
        × (lib.descriptors.encode (chunk_descriptor lib config manifest idx raw chunk)
            ≡ some desc_bytes)
        × (wire ≡ frame_bytes desc_bytes chunk)
  unfolding frame_chunk encode
  frame_chunk_parts idx raw h = ground arith

  is_parity-chunk_descriptor :
      (idx : ℕ) (raw chunk : Bytes)
      → (chunk_descriptor lib config manifest idx raw chunk).is_parity ≡ false
  unfolding chunk_descriptor
  is_parity-chunk_descriptor idx raw chunk = refl

  store_chunk-maybe_compress :
      (idx : ℕ) (raw chunk : Bytes) (s : Received)
      → maybe_compress lib raw config.compression ≡ ok chunk
      → (if contains s.received_chunks idx
          then ok s
          else store_chunk lib manifest
              (chunk_descriptor lib config manifest idx raw chunk)
              chunk
              s)
        ≡ stored_raw config idx raw s
  unfolding store_chunk chunk_descriptor
  store_chunk-maybe_compress idx raw chunk s packed =
      rw (chunk_bytes-maybe_compress idx raw chunk packed)

  persist_data_chunk-frame_bytes :
      (idx : ℕ) (raw chunk desc_bytes pad : Bytes) (verify : Bool) (s : Received)
      → maybe_compress lib raw config.compression ≡ ok chunk
      → length chunk < 2 ^ 32
      → persist_data_chunk lib
          (chunk_descriptor lib config manifest idx raw chunk)
          (4 + length desc_bytes)
          (frame_bytes desc_bytes chunk ++ pad)
          manifest
          verify
          s
        ≡ stored_raw config idx raw s
  unfolding persist_data_chunk chunk_descriptor
  persist_data_chunk-frame_bytes idx raw chunk desc_bytes pad verify s packed small =
      let wire = frame_bytes desc_bytes chunk ++ pad in
      let off = 4 + length desc_bytes in
      let end = off + length chunk % 2 ^ 32 in
      let e : length chunk % 2 ^ 32 ≡ length chunk = mod-eq_of_lt small in
      let there : ltb (length wire) end ≡ false =
        le→ltb (length wire) end (omega (arith, length-frame_bytes desc_bytes chunk pad)) in
      let cut : slice wire off end ≡ chunk = rw e (slice_payload desc_bytes chunk pad) in
      let checked : (verify && not (same (lib.hash chunk) (lib.hash chunk))) ≡ false =
        rw (same_refl (lib.hash chunk)) (ground arith) in
      rw (there, cut, checked) (store_chunk-maybe_compress idx raw chunk s packed)

  -- The frame that the sender makes of a chunk of less than 2 ^ 32 bytes, with any bytes behind
  -- it, has the receiver write the chunk's bytes at its offset and note it, whether it was
  -- compressed and whether checksums are verified or not, if both use the same compression and the
  -- libraries are faithful. A chunk that is noted already is left alone, and a refused write is
  -- the error.
  pub persist_framed_chunk-frame_chunk :
      (idx : ℕ) (raw pad : Bytes) (verify : Bool) (s : Received) {wire : Bytes}
      → frame_chunk lib config idx raw manifest ≡ ok wire
      → length raw < 2 ^ 32
      → persist_framed_chunk lib (wire ++ pad) manifest verify s ≡ stored_raw config idx raw s
  unfolding persist_framed_chunk chunk_descriptor
  persist_framed_chunk-frame_chunk idx raw pad verify s framed small =
      let (chunk, desc_bytes, packed, encoded, w) = frame_chunk_parts idx raw framed in
      let desc = chunk_descriptor lib config manifest idx raw chunk in
      let short : length chunk < 2 ^ 32 =
        omega (arith, length-maybe_compress lib raw config.compression packed) in
      let plain : desc.is_parity ≡ false = is_parity-chunk_descriptor idx raw chunk in
      rw (w, parse_framed_header-frame_bytes lib faithful desc desc_bytes chunk pad encoded, plain)
        ((persist_data_chunk-frame_bytes idx raw chunk desc_bytes pad verify s packed short))
