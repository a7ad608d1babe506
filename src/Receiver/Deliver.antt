-- ===== src/Receiver/Deliver.antt =====
-- Without error correction: the frames of a file's chunks, in any order and with repetitions, leave
-- the file.
use sc_transport.Base.{
  ℕ, ◌+◌, ◌*◌, ◌≤◌, ◌<◌, ◌^◌, ◌%◌, max, ◌≡◌, ◌∙◌, refl, arith, Bool, false, some, [], ◌++◌,
  append-nil, length, drop, ltb, le→ltb, ok, ◌>>=◌, length-take, length-drop, >>=_assoc, ◌/◌,
}
use sc_transport.Base.Bytes.{Bytes}
use sc_transport.Base.HashSet.{contains}
use sc_transport.Crates.{Crates, IsFaithful}
use sc_transport.Wire.{TransferManifest}
use sc_transport.Compress.{maybe_compress}
use sc_transport.Compress.Laws.{length-maybe_compress}
use sc_transport.Sender.{
  SenderConfig, num_chunks, frame_bytes, frame_chunk, chunk_descriptor, build_chunk_payload,
}
use sc_transport.Sender.Geometry.{num_chunks_iff, read_chunk_range_lem}
use sc_transport.Receiver.{Received, parse_framed_header, persist_framed_chunk, seek_write}
use sc_transport.Receiver.Header.{length-frame_bytes, parse_framed_header-frame_bytes}
use sc_transport.Receiver.Persist.{stored_raw, persist_framed_chunk-frame_chunk, frame_chunk_parts}
use sc_transport.Receiver.Fec.{Ingest}
use sc_transport.Receiver.Ingest.{ingest_wire_frame, ingest_data, stash_data, max_body}
use sc_transport.Receiver.Assembly.{noted, chunk}

-- What sender and receiver agree on for a file: the manifest is the one that the sender makes of its
-- configuration, whose chunk size is positive and fits 32 bits.
pub record Announces (config : SenderConfig) (manifest : TransferManifest) (file : Bytes)
    : Type 0 where
  pub positive : 0 < config.chunk_size
  pub small : config.chunk_size < 2 ^ 32
  pub chunk_size : manifest.chunk_size ≡ config.chunk_size
  pub compression : manifest.compression ≡ config.compression
  pub chunks : manifest.num_chunks ≡ num_chunks config (length file)
  pub total : manifest.total_size ≡ length file

module _ (lib : Crates) (faithful : IsFaithful lib) (config : SenderConfig)
    (manifest : TransferManifest) (file : Bytes) (agreed : Announces config manifest file) where
  pub length-chunk-le : (idx : ℕ) → length (chunk config file idx) ≤ config.chunk_size
  length-chunk-le idx =
      omega (arith, length-take {0} config.chunk_size (drop (idx * config.chunk_size) file))

  chunk-le-max_body : (len : ℕ) → len ≤ config.chunk_size → len ≤ max_body manifest
  unfolding max_body
  chunk-le-max_body len short = omega arith

  -- The frame of a chunk passes the tests of `ingest_wire_frame`, and is stored like the chunk.
  ingest_wire_frame-frame_bytes :
      (idx : ℕ) (packed desc_bytes : Bytes) (verify : Bool) (s : Ingest)
      → maybe_compress lib (chunk config file idx) config.compression ≡ ok packed
      → lib.descriptors.encode
          (chunk_descriptor lib config manifest idx (chunk config file idx) packed)
        ≡ some desc_bytes
      → ingest_wire_frame lib manifest false verify [] (frame_bytes desc_bytes packed) s ≡ (do
        received ←
            persist_framed_chunk lib (frame_bytes desc_bytes packed) manifest verify s.received
        ok (record s { received = received }, idx / max manifest.data_shards 1))
  unfolding ingest_wire_frame ingest_data stash_data contains chunk_descriptor
  ingest_wire_frame-frame_bytes idx packed desc_bytes verify s compressed encoded =
      let raw = chunk config file idx in
      let desc = chunk_descriptor lib config manifest idx raw packed in
      let wire = frame_bytes desc_bytes packed in
      let len = length packed % 2 ^ 32 in
      let short : len ≤ config.chunk_size =
        omega (
          arith,
          length-maybe_compress lib raw config.compression compressed,
          length-chunk-le idx,
        ) in
      let big : ltb (max_body manifest) len ≡ false =
        le→ltb (max_body manifest) len (chunk-le-max_body len short) in
      let end = 4 + length desc_bytes + len in
      let l : length (wire ++ []) ≡ 4 + length desc_bytes + length packed + 0 =
        length-frame_bytes desc_bytes packed [] in
      let there : ltb (length wire) end ≡ false =
        le→ltb (length wire) end (omega (arith, (rw append-nil at l))) in
      let parsed : parse_framed_header lib wire ≡ ok (desc, 4, length desc_bytes) =
        rw append-nil at
          (parse_framed_header-frame_bytes lib faithful desc desc_bytes packed [] encoded) in
      rw (parsed, big, there)
        (>>=_assoc (persist_framed_chunk lib wire manifest verify s.received)
          (λ received. ok (record s { received = received }))
          (λ s'. ok (s', idx / max manifest.data_shards 1)))

  pub stored_raw-noted :
      (idx : ℕ) (s : Received)
      → idx < num_chunks config (length file)
      → length file ≤ s.out.capacity
      → stored_raw config idx (chunk config file idx) s ≡ ok (noted config file idx s)
  unfolding seek_write
  stored_raw-noted idx s inside room = ground (
    arith,
    (num_chunks_iff config (length file) idx agreed.positive).0 inside,
    length-take {0} config.chunk_size (drop (idx * config.chunk_size) file),
    length-drop {0} (idx * config.chunk_size) file,
  )

  -- Without error correction, the frame that the sender builds for a chunk of a file on which both
  -- sides agree, and for which the storage has room, is taken in without an error: the chunk's
  -- bytes are at their place and its index is noted, and the group of the chunk is returned. A
  -- chunk that was noted before changes nothing.
  pub ingest_wire_frame-build_chunk_payload :
      (idx : ℕ) (verify : Bool) (s : Ingest) {wire : Bytes}
      → build_chunk_payload lib config file idx (length file) manifest ≡ ok wire
      → idx < num_chunks config (length file)
      → length file ≤ s.received.out.capacity
      → ingest_wire_frame lib manifest false verify [] wire s
        ≡ ok (
          record s { received = noted config file idx s.received },
          idx / max manifest.data_shards 1,
        )
  unfolding build_chunk_payload
  ingest_wire_frame-build_chunk_payload idx verify s {wire} built inside room =
      let raw = chunk config file idx in
      let framed : frame_chunk lib config idx raw manifest ≡ ok wire =
        rw (read_chunk_range_lem config file idx) at built in
      let (packed, desc_bytes, compressed, encoded, w) =
        frame_chunk_parts lib faithful config manifest agreed.compression idx raw framed in
      let persisted : persist_framed_chunk lib (wire ++ []) manifest verify s.received
          ≡ stored_raw config idx raw s.received =
        persist_framed_chunk-frame_chunk lib faithful config manifest agreed.compression idx raw []
          verify s.received framed (omega (arith, length-chunk-le idx)) in
      let persisted' : persist_framed_chunk lib wire manifest verify s.received
          ≡ stored_raw config idx raw s.received =
        rw append-nil at persisted in
      rw w (
        ingest_wire_frame-frame_bytes idx packed desc_bytes verify s compressed encoded
        ∙ (rw (← w, persisted', stored_raw-noted idx s.received inside room) refl))
