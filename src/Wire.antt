-- ===== src/Wire.antt =====
-- crates/sct-proto/src/lib.rs: the messages on the wire. A byte array is its list of bytes, and
-- `HashMap<String, String>` a list of pairs.
pub mod Codec
pub mod Frame
pub mod RoundTrip
use sc_transport.Base.{ℕ, String, Bool, Option, List}
use sc_transport.Base.Bytes.{Bytes}
use sc_transport.Base.Int.{ℤ}

pub data ChecksumAlg : Type 0 where
  blake3 : ChecksumAlg

pub data CompressionType : Type 0 where
  none : CompressionType
  zstd : ℤ → CompressionType

pub record TransferManifest : Type 0 where
  pub transfer_id : Bytes
  pub filename : String
  pub total_size : ℕ
  pub chunk_size : ℕ
  pub num_chunks : ℕ
  pub checksum_algorithm : ChecksumAlg
  pub file_checksum : Bytes
  pub compression : CompressionType
  pub metadata : List (String × String)
  pub data_shards : ℕ
  pub parity_shards : ℕ

pub record ChunkDescriptor : Type 0 where
  pub index : ℕ
  pub offset : ℕ
  pub compressed_size : ℕ
  pub uncompressed_size : ℕ
  pub checksum : Bytes
  pub was_compressed : Bool
  pub is_parity : Bool
  pub parity_index : ℕ
  pub fec_group : ℕ

pub record ManifestAck : Type 0 where
  pub accepted : Bool
  pub message : Option String
  pub received_chunks : List ℕ
  pub chunk_hashes : List Bytes

pub record FinalAck : Type 0 where
  pub success : Bool
  pub message : Option String

pub record TransferComplete : Type 0 where
  pub transfer_id : Bytes
