-- ===== src/Compress.antt =====
-- crates/sct-core/src/compression/mod.rs: chunks are compressed when that makes them shorter.
pub mod Laws
use sc_transport.Base.{
  ℕ, Bool, true, false, ◌||◌, ◌&&◌, [], ◌∷◌, length, leb, ◌==◌, if◌then◌else◌, Option, Result, ok,
  err, ◌>>=◌, ok_or,
}
use sc_transport.Base.Bytes.{Bytes}
use sc_transport.Crates.{Crates}
use sc_transport.Wire.{CompressionType}

pub data ZstdError : Type 0 where
  encode_error decode_error : ZstdError

-- the first four bytes of the formats that are compressed already
unfoldable pub is_likely_compressed : Bytes → Bool
is_likely_compressed (a ∷ b ∷ c ∷ d ∷ _) =
    (a == 0x50 && b == 0x4B && c == 0x03 && d == 0x04)
    || (a == 0x1F && b == 0x8B)
    || (a == 0x28 && b == 0xB5 && c == 0x2F && d == 0xFD)
    || (a == 0x04 && b == 0x22 && c == 0x4D && d == 0x18)
    || (a == 0x89 && b == 0x48 && c == 0x44 && d == 0x46)
    || (a == 0x72 && b == 0x6F && c == 0x6F && d == 0x74)
    || (a == 0x42 && b == 0x5A && c == 0x68)
    || (a == 0x37 && b == 0x7A && c == 0xBC && d == 0xAF)
is_likely_compressed _ = false

module _ (lib : Crates) where
  unfoldable pub maybe_compress : Bytes → CompressionType → Result ZstdError Bytes
  maybe_compress input CompressionType.none = ok input
  maybe_compress input (CompressionType.zstd level) =
      if is_likely_compressed input then ok input else do
        compressed ← ok_or (lib.encode_all input level) ZstdError.encode_error
        if leb (length input) (length compressed) then ok input else ok compressed

  unfoldable pub maybe_decompress : Bytes → CompressionType → Result ZstdError Bytes
  maybe_decompress input CompressionType.none = ok input
  maybe_decompress input (CompressionType.zstd _) =
      ok_or (lib.decode_all input) ZstdError.decode_error
