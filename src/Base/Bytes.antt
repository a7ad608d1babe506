-- ===== src/Base/Bytes.antt =====
-- Byte strings, big-endian lengths, and slices.
pub mod Write
use Prim.Native.Nat.{ℕ, ◌+◌, ◌-◌, ◌*◌, ◌/◌, ◌%◌, ◌^◌, ◌<◌}
use mathlib.Core.Path.{◌≡◌, refl}
use mathlib.Core.Bool.{Bool, true, false, ◌&&◌}
use mathlib.Core.List.{List, [], ◌∷◌, ◌++◌}
use native.Mathlib.Omega.{arith}
use sc_transport.Base.Tests.{◌==◌}
use sc_transport.Base.Lists.{take, drop, replicate, length}

-- `Vec<u8>`, `&[u8]`, and the arrays `[u8; N]`.
abbrev pub Bytes : Type 0
Bytes = List ℕ

-- `wire[from..to]`
abbrev pub slice : Bytes → ℕ → ℕ → Bytes
slice xs from to = take (to - from) (drop from xs)

-- `x.resize(n, 0)` of a vector, and `set_len(n)` of a file
unfoldable pub resize : ℕ → Bytes → Bytes
resize n x = take n (x ++ replicate (n - length x) 0)

-- `(n as u32).to_be_bytes()`
unfoldable pub to_be_bytes : ℕ → Bytes
to_be_bytes n = (n / 2 ^ 24 % 256) ∷ (n / 2 ^ 16 % 256) ∷ (n / 2 ^ 8 % 256) ∷ (n % 256) ∷ []

-- `u32::from_be_bytes`, of the first four bytes.
unfoldable pub from_be_bytes : Bytes → ℕ
from_be_bytes (a ∷ b ∷ c ∷ d ∷ _) = ((a * 256 + b) * 256 + c) * 256 + d
from_be_bytes _ = 0

pub from_be_bytes-to_be_bytes :
    (n : ℕ) (rest : Bytes) → n < 2 ^ 32 → from_be_bytes (to_be_bytes n ++ rest) ≡ n
unfolding from_be_bytes to_be_bytes
from_be_bytes-to_be_bytes n rest h = omega arith

-- `==` on byte strings.
unfoldable pub same : Bytes → Bytes → Bool
same [] [] = true
same [] (y ∷ ys) = false
same (x ∷ xs) [] = false
same (x ∷ xs) (y ∷ ys) = x == y && same xs ys

pub same_refl : (xs : Bytes) → same xs xs ≡ true
unfolding same
same_refl [] = refl
same_refl (x ∷ xs) = ground (arith, same_refl xs)

pub same→eq : (xs ys : Bytes) → same xs ys ≡ true → xs ≡ ys
unfolding same
same→eq [] [] h = refl
same→eq [] (y ∷ ys) h = ground arith
same→eq (x ∷ xs) [] h = ground arith
same→eq (x ∷ xs) (y ∷ ys) h = ground (arith, same→eq xs ys)
