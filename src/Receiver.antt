-- ===== src/Receiver.antt =====
-- crates/sct-core/src/receiver/mod.rs: the receiving side of a transfer. This module has the parsing
-- of a chunk's frame and the writing of a data chunk; `Fec` has the recovery of lost chunks.
pub mod Header
pub mod Persist
pub mod Fec
pub mod Ingest
pub mod Assembly
pub mod Transfer
pub mod Deliver
pub mod Completion
pub mod Growth
pub mod Bounds
pub mod Resume
use sc_transport.Base.{
  ℕ, ◌+◌, ◌≤◌, Bool, true, not, ◌&&◌, List, length, ltb, if◌then◌else◌, Result, ok, err, ◌>>=◌,
  ◌>>◌, reject_if,
}
use sc_transport.Base.Bytes.{Bytes, slice, from_be_bytes, same}
use sc_transport.Base.Bytes.Write.{write_at}
use sc_transport.Base.HashSet.{HashSet, contains, insert}
use sc_transport.Crates.{Crates}
use sc_transport.Wire.{TransferManifest, ChunkDescriptor}
use sc_transport.Wire.Frame.{FrameError, check_frame_len, max_chunk_descriptor_bytes, decode}
use sc_transport.Compress.{ZstdError, maybe_decompress}

-- The errors, one for each message. `write_failed` is the error of a write that the storage refuses.
pub data ReceiveError : Type 0 where
  frame : FrameError → ReceiveError
  zstd : ZstdError → ReceiveError
  truncated_chunk_stream truncated_descriptor truncated_chunk_body write_failed : ReceiveError
  payload_too_large : ℕ → Bool → ReceiveError
  parity_checksum_mismatch : ℕ → ℕ → ReceiveError
  chunk_checksum_mismatch : ℕ → ReceiveError
  incomplete_transfer : ℕ → ℕ → ℕ → ReceiveError
  connection_failed invalid_fec_dimensions transfer_id_mismatch : ReceiveError
  file_checksum_mismatch : ReceiveError

abbrev pub from_frame {ℓ} : {A : Type ℓ} → Result FrameError A → Result ReceiveError A
from_frame (ok a) = ok a
from_frame (err e) = err (ReceiveError.frame e)

abbrev pub from_zstd {ℓ} : {A : Type ℓ} → Result ZstdError A → Result ReceiveError A
from_zstd (ok a) = ok a
from_zstd (err e) = err (ReceiveError.zstd e)

-- The `.part` file: its bytes, and how many bytes the storage lets it grow to.
pub record File : Type 0 where
  pub content : Bytes
  pub capacity : ℕ

-- `out.seek(SeekFrom::Start(off))` and `out.write_all(data)`
unfoldable pub seek_write : File → ℕ → Bytes → Result ReceiveError File
seek_write out off bytes = do
  reject_if (ltb 0 (length bytes) && ltb out.capacity (off + length bytes))
      ReceiveError.write_failed
  ok (record out { content = write_at out.content off bytes })

-- What the loop of `accept_transfer` keeps of the chunks that are there.
pub record Received : Type 0 where
  pub out : File
  pub received_chunks : HashSet

module _ (lib : Crates) where
  -- the descriptor, where it starts, and how long it is
  unfoldable pub parse_framed_header : Bytes → Result ReceiveError (ChunkDescriptor × ℕ × ℕ)
  parse_framed_header wire = do
    reject_if (ltb (length wire) 4) ReceiveError.truncated_chunk_stream
    let desc_len = from_be_bytes wire
    from_frame (check_frame_len desc_len max_chunk_descriptor_bytes)
    reject_if (ltb (length wire) (4 + desc_len)) ReceiveError.truncated_descriptor
    desc ← from_frame (decode lib.descriptors (slice wire 4 (4 + desc_len)))
    ok (desc, 4, desc_len)

  unfoldable pub peek_framed_chunk_index : Bytes → Result ReceiveError ℕ
  peek_framed_chunk_index wire = do
    reject_if (ltb (length wire) 4) ReceiveError.truncated_chunk_stream
    (desc, _, _) ← parse_framed_header wire
    ok desc.index

  -- the bytes of the chunk that go to the file
  unfoldable pub chunk_bytes :
      TransferManifest → ChunkDescriptor → Bytes → Result ReceiveError Bytes
  chunk_bytes manifest desc wire_payload =
      if desc.was_compressed
      then from_zstd (maybe_decompress lib wire_payload manifest.compression)
      else ok wire_payload

  -- the part of `persist_framed_chunk` after the test for a duplicate
  unfoldable pub store_chunk :
      TransferManifest → ChunkDescriptor → Bytes → Received → Result ReceiveError Received
  store_chunk manifest desc wire_payload s = do
    chunk ← chunk_bytes manifest desc wire_payload
    out ← seek_write s.out desc.offset chunk
    ok (record { out = out; received_chunks = insert s.received_chunks desc.index })

  -- the part of `persist_framed_chunk` after the test for parity; the payload starts at `payload_off`
  unfoldable pub persist_data_chunk :
      ChunkDescriptor
      → ℕ
      → Bytes
      → TransferManifest
      → Bool
      → Received
      → Result ReceiveError Received
  persist_data_chunk desc payload_off wire manifest verify_checksums s = do
    let payload_end = payload_off + desc.compressed_size
    reject_if (ltb (length wire) payload_end) ReceiveError.truncated_chunk_body
    let wire_payload = slice wire payload_off payload_end
    reject_if (verify_checksums && not (same (lib.hash wire_payload) desc.checksum))
        (ReceiveError.chunk_checksum_mismatch desc.index)
    let stored = store_chunk manifest desc wire_payload s
    if contains s.received_chunks desc.index then ok s else stored

  unfoldable pub persist_framed_chunk :
      Bytes → TransferManifest → Bool → Received → Result ReceiveError Received
  persist_framed_chunk wire manifest verify_checksums s = do
    (desc, prefix, desc_len) ← parse_framed_header wire
    if desc.is_parity
        then ok s
        else persist_data_chunk desc (prefix + desc_len) wire manifest verify_checksums s
