-- ===== src/Base/Bytes/Write.antt =====
-- A write at an offset, as `seek` and `write_all` do it: what lies between the end of the file and
-- the offset reads as zeros.
use Prim.Native.Nat.{ℕ, zero, suc, ◌+◌, ◌-◌, ◌≤◌, ◌<◌}
use mathlib.Core.Path.{◌≡◌, refl}
use mathlib.Core.Bool.{◌&&◌}
use mathlib.Core.List.{List, [], ◌∷◌}
use native.Mathlib.Omega.{arith}
use sc_transport.Base.Tests.{leb, ltb, if◌then◌else◌}
use sc_transport.Base.Lists.{length, get_elem?}

module _ where
  unfoldable pub overwrite : List ℕ → List ℕ → List ℕ
  overwrite xs [] = xs
  overwrite [] (y ∷ ys) = y ∷ overwrite [] ys
  overwrite (x ∷ xs) (y ∷ ys) = y ∷ overwrite xs ys

  unfoldable pub overwrite_at : List ℕ → ℕ → List ℕ → List ℕ
  unfolding overwrite
  overwrite_at xs zero ys = overwrite xs ys
  overwrite_at [] (suc n) ys = 0 ∷ overwrite_at [] n ys
  overwrite_at (x ∷ xs) (suc n) ys = x ∷ overwrite_at xs n ys

  -- Nothing is written for no bytes.
  unfoldable pub write_at : List ℕ → ℕ → List ℕ → List ℕ
  unfolding overwrite_at
  write_at xs off [] = xs
  write_at xs off (y ∷ ys) = overwrite_at xs off (y ∷ ys)

  length-overwrite : (xs ys : List ℕ) → length ys ≤ length xs → length (overwrite xs ys) ≡ length xs
  unfolding overwrite
  length-overwrite xs [] h = refl
  length-overwrite [] (y ∷ ys) h = absurd (omega arith)
  length-overwrite (x ∷ xs) (y ∷ ys) h = omega (arith, length-overwrite xs ys)

  length-overwrite_at :
      (xs : List ℕ) (off : ℕ) (ys : List ℕ)
      → off + length ys ≤ length xs
      → length (overwrite_at xs off ys) ≡ length xs
  unfolding overwrite_at
  length-overwrite_at xs zero ys h = length-overwrite xs ys (omega arith)
  length-overwrite_at [] (suc n) ys h = absurd (omega arith)
  length-overwrite_at (x ∷ xs) (suc n) ys h = omega (arith, length-overwrite_at xs n ys)

  -- A write inside of the file keeps its length.
  pub length-write_at :
      (xs : List ℕ) (off : ℕ) (ys : List ℕ)
      → off + length ys ≤ length xs
      → length (write_at xs off ys) ≡ length xs
  unfolding write_at
  length-write_at xs off [] h = refl
  length-write_at xs off (y ∷ ys) h = length-overwrite_at xs off (y ∷ ys) h

  get_elem?-overwrite :
      (xs ys : List ℕ) (k : ℕ)
      → get_elem? (overwrite xs ys) k
        ≡ (if ltb k (length ys) then get_elem? ys k else get_elem? xs k)
  unfolding overwrite
  get_elem?-overwrite xs [] k = ground arith
  get_elem?-overwrite [] (y ∷ ys) zero = ground arith
  get_elem?-overwrite (x ∷ xs) (y ∷ ys) zero = ground arith
  get_elem?-overwrite [] (y ∷ ys) (suc k) = ground (arith, get_elem?-overwrite [] ys k)
  get_elem?-overwrite (x ∷ xs) (y ∷ ys) (suc k) = ground (arith, get_elem?-overwrite xs ys k)

  get_elem?-overwrite_at :
      (xs : List ℕ) (off : ℕ) (ys : List ℕ) (k : ℕ)
      → off ≤ length xs
      → get_elem? (overwrite_at xs off ys) k
        ≡ (if leb off k && ltb k (off + length ys) then get_elem? ys (k - off) else get_elem? xs k)
  unfolding overwrite_at
  get_elem?-overwrite_at xs zero ys k h = ground (arith, get_elem?-overwrite xs ys k)
  get_elem?-overwrite_at [] (suc n) ys k h = absurd (omega arith)
  get_elem?-overwrite_at (x ∷ xs) (suc n) ys zero h = ground arith
  get_elem?-overwrite_at (x ∷ xs) (suc n) ys (suc k) h =
      ground (arith, get_elem?-overwrite_at xs n ys k)

  -- The bytes of a write are at their places, and no other byte changes.
  pub get_elem?-write_at :
      (xs : List ℕ) (off : ℕ) (ys : List ℕ) (k : ℕ)
      → off ≤ length xs
      → get_elem? (write_at xs off ys) k
        ≡ (if leb off k && ltb k (off + length ys) then get_elem? ys (k - off) else get_elem? xs k)
  unfolding write_at
  get_elem?-write_at xs off [] k h = ground arith
  get_elem?-write_at xs off (y ∷ ys) k h = get_elem?-overwrite_at xs off (y ∷ ys) k h

  -- Two lists of one length with the same entries are the same.
  pub list_ext :
      (xs ys : List ℕ)
      → length xs ≡ length ys
      → ((k : ℕ) → k < length ys → get_elem? xs k ≡ get_elem? ys k)
      → xs ≡ ys
  list_ext [] [] e h = refl
  list_ext [] (y ∷ ys) e h = absurd (omega arith)
  list_ext (x ∷ xs) [] e h = absurd (omega arith)
  list_ext (x ∷ xs) (y ∷ ys) e h =
      cc (h 0 (omega arith), list_ext xs ys (omega arith) (λ k lt. h (suc k) (omega arith)))
