-- ===== src/Crates.antt =====
-- The packages that the program calls and does not implement: BLAKE3, Zstandard, bincode of chunk
-- descriptors, and the Reed-Solomon code over bytes. Each law below is one that the package
-- documents, and is a hypothesis of the theorems that rely on it.
use sc_transport.Base.{ℕ, ◌≡◌, Bool, Option, some, List}
use sc_transport.Base.Bytes.{Bytes}
use sc_transport.Base.Int.{ℤ}
use sc_transport.Wire.{ChunkDescriptor}
use sc_transport.Wire.Codec.{Codec, RoundTrips, IsSized}
use sc_transport.Wire.Frame.{max_chunk_descriptor_bytes}

pub record Crates : Type 0 where
  -- `blake3::hash(data).as_bytes()`
  pub hash : Bytes → Bytes
  -- `zstd::stream::encode_all(input, level)` and `decode_all(input)`
  pub encode_all : Bytes → ℤ → Option Bytes
  pub decode_all : Bytes → Option Bytes
  -- bincode of a `ChunkDescriptor`
  pub descriptors : Codec ChunkDescriptor
  -- whether `ReedSolomon::new(data_shards, parity_shards)` succeeds
  pub rs_new : ℕ → ℕ → Bool
  -- the parity rows that `encode` fills in, for these dimensions and data rows
  pub rs_encode : ℕ → ℕ → List Bytes → Option (List Bytes)
  -- the shards that `reconstruct_data` leaves, for these dimensions and shards
  pub rs_reconstruct_data : ℕ → ℕ → List (Option Bytes) → Option (List (Option Bytes))

-- What Zstandard encodes, at any level, it decodes.
pub record ZstdRoundTrips (lib : Crates) : Type 0 where
  pub decode-encode :
      (raw packed : Bytes) (level : ℤ)
      → lib.encode_all raw level ≡ some packed
      → lib.decode_all packed ≡ some raw

-- What the framing of chunks relies on. A descriptor has nine fields of at most ten bytes each, but
-- for the checksum of 32 bytes, so that its encoding is far below the bound.
pub record IsFaithful (lib : Crates) : Type 0 where
  pub zstd : ZstdRoundTrips lib
  pub descriptors : RoundTrips lib.descriptors
  pub sized : IsSized lib.descriptors max_chunk_descriptor_bytes
