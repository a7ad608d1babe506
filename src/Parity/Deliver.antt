-- ===== src/Parity/Deliver.antt =====
-- The receiver puts the row of a parity packet at its slot of its group.
use native.Mathlib.Nat.{mod-eq_of_lt}
use sc_transport.Base.{
  ℕ, ◌+◌, ◌≤◌, ◌<◌, ◌^◌, ◌%◌, ◌≡◌, arith, Bool, true, false, not, ◌&&◌, some, List, ◌++◌, length,
  ltb, le→ltb, ok, ◌>>=◌, saturating_add,
}
use sc_transport.Base.Bytes.{Bytes, slice, same, same_refl}
use sc_transport.Base.HashSet.{HashSet}
use sc_transport.Crates.{Crates, IsFaithful}
use sc_transport.Wire.{TransferManifest, ChunkDescriptor}
use sc_transport.Wire.Frame.{encode}
use sc_transport.Packet.{Packet}
use sc_transport.Sender.{frame_bytes}
use sc_transport.Receiver.Header.{
  length-frame_bytes, slice_payload, parse_framed_header-frame_bytes,
}
use sc_transport.Receiver.Fec.{Ingest, try_fec_group_recover}
use sc_transport.Receiver.Ingest.{ingest_wire_frame, ingest_parity, put_shard, max_body}
use sc_transport.Parity.{
  FecEncoder, first_group, shard_descriptor, frame_fec_wire_shard, parity_chunk_index,
  parity_packet,
}

module _ (lib : Crates) (faithful : IsFaithful lib) (manifest : TransferManifest) (verify : Bool)
    (lost : HashSet) where
  parity_desc : FecEncoder → ℕ → ℕ → Bytes → ChunkDescriptor
  parity_desc enc g i row = shard_descriptor lib (parity_chunk_index lib enc g i) 0 row true i g

  parity_packet_parts :
      (enc : FecEncoder) (block : List Packet) (i : ℕ) (row : Bytes) {p : Packet}
      → parity_packet lib enc block i row ≡ ok p
      → (desc_bytes : Bytes) × (lib.descriptors.encode (parity_desc enc (first_group block) i row)
          ≡ some desc_bytes)
        × (p.payload ≡ frame_bytes desc_bytes row)
  unfolding parity_packet frame_fec_wire_shard encode parity_desc
  parity_packet_parts enc block i row h = ground arith

  -- the frame of a row, whatever follows it
  ingest_wire_frame-row :
      (enc : FecEncoder) (g i : ℕ) (row desc_bytes pad : Bytes) (s : Ingest)
      → lib.descriptors.encode (parity_desc enc g i row) ≡ some desc_bytes
      → length row < 2 ^ 32
      → length row ≤ max_body manifest
      → ingest_wire_frame lib manifest true verify lost (frame_bytes desc_bytes row ++ pad) s ≡ (do
        s' ←
            try_fec_group_recover lib manifest verify g
              (put_shard manifest g (saturating_add i manifest.data_shards) row s)
        ok (s', g))
  unfolding ingest_wire_frame ingest_parity parity_desc shard_descriptor
  ingest_wire_frame-row enc g i row desc_bytes pad s encoded small short =
      let desc = parity_desc enc g i row in
      let wire = frame_bytes desc_bytes row ++ pad in
      let off = 4 + length desc_bytes in
      let len = length row % 2 ^ 32 in
      let e : len ≡ length row = mod-eq_of_lt small in
      let big : ltb (max_body manifest) len ≡ false =
        le→ltb (max_body manifest) len (omega arith) in
      let there : ltb (length wire) (off + len) ≡ false =
        le→ltb (length wire) (off + len) (omega (arith, length-frame_bytes desc_bytes row pad)) in
      let cut : slice wire off (off + len) ≡ row = rw e (slice_payload desc_bytes row pad) in
      let checked : (verify && not (same (lib.hash row) (lib.hash row))) ≡ false =
        rw (same_refl (lib.hash row)) (ground arith) in
      rw (
        parse_framed_header-frame_bytes lib faithful desc desc_bytes row pad encoded,
        big,
        there,
        cut,
        checked,
      )

  -- With faithful libraries and error correction in use: a parity packet that `encode_block` makes
  -- of a row, of less than 2 ^ 32 bytes and no more than the receiver takes, has the receiver put
  -- the row behind the data slots of its group, at its parity index, and then try to recover the
  -- group, whatever follows the frame and whether checksums are verified or not.
  pub ingest_wire_frame-parity_packet :
      (enc : FecEncoder) (block : List Packet) (i : ℕ) (row pad : Bytes) (s : Ingest) {p : Packet}
      → parity_packet lib enc block i row ≡ ok p
      → length row < 2 ^ 32
      → length row ≤ max_body manifest
      → ingest_wire_frame lib manifest true verify lost (p.payload ++ pad) s ≡ (do
        s' ←
            try_fec_group_recover lib manifest verify
              (first_group block)
              (put_shard manifest (first_group block) (saturating_add i manifest.data_shards) row s)
        ok (s', first_group block))
  ingest_wire_frame-parity_packet enc block i row pad s made small short =
      let (desc_bytes, encoded, framed) = parity_packet_parts enc block i row made in
      rw framed
        (ingest_wire_frame-row enc (first_group block) i row desc_bytes pad s encoded small short)
