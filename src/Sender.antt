-- ===== src/Sender.antt =====
-- crates/sct-core/src/sender/mod.rs: the cutting of a file into chunks, their frames, and the plan
-- of a transfer. A file is its bytes.
pub mod Geometry
pub mod Skip
pub mod Adaptive
use sc_transport.Base.{
  ℕ, ◌+◌, ◌-◌, ◌*◌, ◌/◌, ◌%◌, ◌^◌, min, max, Bool, false, [], ◌++◌, length, take, drop, leb, ltb,
  div_ceil, if◌then◌else◌, Result, ok, err, ◌>>=◌, ◌>>◌, reject_if, ok_or,
}
use sc_transport.Base.Bytes.{Bytes, to_be_bytes}
use sc_transport.Crates.{Crates}
use sc_transport.Wire.{CompressionType, TransferManifest, ChunkDescriptor}
use sc_transport.Wire.Frame.{FrameError, encode}
use sc_transport.Compress.{ZstdError, maybe_compress}

pub record SenderConfig : Type 0 where
  pub chunk_size : ℕ
  pub max_parallel_chunks : ℕ
  pub compression : CompressionType
  pub require_final_ack : Bool

-- `read_failed` is the error of `read_exact` on a file that got shorter.
pub data SendError : Type 0 where
  zstd : ZstdError → SendError
  frame : FrameError → SendError
  read_failed : SendError

abbrev pub from_zstd {ℓ} : {A : Type ℓ} → Result ZstdError A → Result SendError A
from_zstd (ok a) = ok a
from_zstd (err e) = err (SendError.zstd e)

abbrev pub from_frame {ℓ} : {A : Type ℓ} → Result FrameError A → Result SendError A
from_frame (ok a) = ok a
from_frame (err e) = err (SendError.frame e)

module _ (config : SenderConfig) where
  -- the `num_chunks` of the manifest; a chunk size of 0 is a division by zero in the source
  unfoldable pub num_chunks : ℕ → ℕ
  num_chunks total_size = div_ceil total_size config.chunk_size

  unfoldable pub chunk_len : ℕ → ℕ → ℕ
  chunk_len idx total_size =
      let off = idx * config.chunk_size in
      if leb total_size off then 0 else min (total_size - off) config.chunk_size

  unfoldable pub read_chunk_range : Bytes → ℕ → ℕ → Result SendError Bytes
  read_chunk_range file idx total_size =
      let off = idx * config.chunk_size in
      if leb total_size off then ok [] else do
        let len = min (total_size - off) config.chunk_size
        reject_if (ltb (length file) (off + len)) SendError.read_failed
        ok (take len (drop off file))

-- A descriptor and the payload that it describes, as they go on the wire.
unfoldable pub frame_bytes : Bytes → Bytes → Bytes
frame_bytes desc_bytes payload = to_be_bytes (length desc_bytes) ++ (desc_bytes ++ payload)

module _ (lib : Crates) where
  -- the descriptor of a data chunk, of the bytes `chunk` on the wire for the bytes `chunk_raw`
  unfoldable pub chunk_descriptor :
      SenderConfig → TransferManifest → ℕ → Bytes → Bytes → ChunkDescriptor
  chunk_descriptor config manifest idx chunk_raw chunk = record {
    index = idx;
    offset = idx * config.chunk_size;
    compressed_size = length chunk % 2 ^ 32;
    uncompressed_size = length chunk_raw % 2 ^ 32;
    checksum = lib.hash chunk;
    was_compressed = ltb (length chunk) (length chunk_raw);
    is_parity = false;
    parity_index = 0;
    fec_group = idx / max manifest.data_shards 1;
  }

  unfoldable pub frame_chunk : SenderConfig → ℕ → Bytes → TransferManifest → Result SendError Bytes
  frame_chunk config idx chunk_raw manifest = do
    chunk ← from_zstd (maybe_compress lib chunk_raw config.compression)
    desc_bytes ←
        from_frame (encode lib.descriptors (chunk_descriptor config manifest idx chunk_raw chunk))
    ok (frame_bytes desc_bytes chunk)

  unfoldable pub build_chunk_payload :
      SenderConfig → Bytes → ℕ → ℕ → TransferManifest → Result SendError Bytes
  build_chunk_payload config file idx total_size manifest = do
    raw ← read_chunk_range config file idx total_size
    frame_chunk config idx raw manifest
