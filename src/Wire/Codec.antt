-- ===== src/Wire/Codec.antt =====
-- `bincode` with its standard configuration, which the program calls and does not implement.
use sc_transport.Base.{ℕ, ◌≤◌, ◌<◌, ◌≡◌, Option, some, length}
use sc_transport.Base.Bytes.{Bytes}

-- `encode_to_vec`, and the message that `decode_from_slice` returns.
pub record Codec {ℓ} (T : Type ℓ) : Type ℓ where
  pub encode : T → Option Bytes
  pub decode : Bytes → Option T

-- What is encoded decodes to itself.
pub record RoundTrips {ℓ} {T : Type ℓ} (c : Codec T) : Type ℓ where
  pub decode-encode : (t : T) (raw : Bytes) → c.encode t ≡ some raw → c.decode raw ≡ some t

-- Every encoding has between one and `limit` bytes.
pub record IsSized {ℓ} {T : Type ℓ} (c : Codec T) (limit : ℕ) : Type ℓ where
  pub nonempty : (t : T) (raw : Bytes) → c.encode t ≡ some raw → 0 < length raw
  pub fits : (t : T) (raw : Bytes) → c.encode t ≡ some raw → length raw ≤ limit
