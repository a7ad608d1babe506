-- ===== src/Receiver/Ingest.antt =====
-- `ingest_wire_frame` of crates/sct-core/src/receiver/mod.rs: what one datagram, or one finished
-- stream, does.
use sc_transport.Base.{
  ℕ, ◌+◌, ◌*◌, max, Bool, not, ◌&&◌, none, some, length, set, replicate, ltb, if◌then◌else◌,
  saturating_add, saturating_mul, saturating_sub, Result, ok, ◌>>=◌, ◌>>◌, reject_if,
}
use sc_transport.Base.Bytes.{Bytes, slice, same}
use sc_transport.Base.HashMap
use sc_transport.Base.HashSet.{HashSet, contains}
use sc_transport.Crates.{Crates}
use sc_transport.Wire.{TransferManifest, ChunkDescriptor}
use sc_transport.Receiver.{ReceiveError, parse_framed_header, persist_framed_chunk}
use sc_transport.Receiver.Fec.{Shards, Ingest, try_fec_group_recover}

-- `fec_groups.entry(g).or_insert_with(|| vec![None; data_shards + parity_shards])`
unfoldable pub group_of : TransferManifest → Ingest → ℕ → Shards
group_of manifest s g = elim (HashMap.get s.fec_groups g) [
  | none ↦ replicate (manifest.data_shards + manifest.parity_shards) none
  | some group ↦ group
]

-- Puts a shard at its slot of its group, if there is such a slot.
unfoldable pub put_shard : TransferManifest → ℕ → ℕ → Bytes → Ingest → Ingest
put_shard manifest g slot shard s = record s {
  fec_groups = HashMap.put s.fec_groups g (set (group_of manifest s g) slot (some shard));
}

unfoldable pub max_body : TransferManifest → ℕ
max_body manifest = max (saturating_mul manifest.chunk_size 4) (64 * 1024)

-- `has_rs` is whether `fec_rs` is `Some`; `simulate_lost` is empty but in the tests of the program.
module _ (lib : Crates) (manifest : TransferManifest) (has_rs verify_checksums : Bool)
    (simulate_lost : HashSet) where
  unfoldable pub ingest_parity : ChunkDescriptor → Bytes → Ingest → Result ReceiveError Ingest
  ingest_parity desc payload s = do
    reject_if (verify_checksums && not (same (lib.hash payload) desc.checksum))
        (ReceiveError.parity_checksum_mismatch desc.fec_group desc.parity_index)
    let pi = saturating_add desc.parity_index manifest.data_shards
    try_fec_group_recover lib manifest verify_checksums desc.fec_group
        (put_shard manifest desc.fec_group pi payload s)

  -- the part for a data chunk after `persist_framed_chunk`
  unfoldable pub stash_data : ChunkDescriptor → Bytes → Ingest → Result ReceiveError Ingest
  stash_data desc wire s =
      let base = saturating_mul desc.fec_group (max manifest.data_shards 1) in
      let slot = saturating_sub desc.index base in
      if has_rs && ltb slot manifest.data_shards
      then try_fec_group_recover lib manifest verify_checksums desc.fec_group
          (put_shard manifest desc.fec_group slot wire s)
      else ok s

  unfoldable pub ingest_data : ChunkDescriptor → Bytes → Ingest → Result ReceiveError Ingest
  ingest_data desc wire s = do
    received ← persist_framed_chunk lib wire manifest verify_checksums s.received
    stash_data desc wire (record s { received = received })

  -- the new state, and the group of the frame
  unfoldable pub ingest_wire_frame : Bytes → Ingest → Result ReceiveError (Ingest × ℕ)
  ingest_wire_frame wire s = do
    (desc, _, desc_len) ← parse_framed_header lib wire
    reject_if (ltb (max_body manifest) desc.compressed_size)
        (ReceiveError.payload_too_large desc.index desc.is_parity)
    let payload_off = 4 + desc_len
    let payload_end = payload_off + desc.compressed_size
    reject_if (ltb (length wire) payload_end) ReceiveError.truncated_chunk_body
    let payload = slice wire payload_off payload_end
    let parity = if has_rs then ingest_parity desc payload s else ok s
    let plain = if contains simulate_lost desc.index then ok s else ingest_data desc wire s
    s' ← (if desc.is_parity then parity else plain)
    ok (s', desc.fec_group)
