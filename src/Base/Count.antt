-- ===== src/Base/Count.antt =====
-- How many elements of a list pass a test. Two lists for which this is so for every test have the
-- same elements, each as often.
use Prim.Native.Nat.{ℕ, ◌+◌, ◌≤◌}
use mathlib.Core.Path.{◌≡◌, refl}
use mathlib.Core.Bool.{Bool, not, ◌&&◌}
use mathlib.Core.List.{List, [], ◌∷◌, ◌++◌}
use native.Mathlib.Omega.{arith}
use sc_transport.Base.Tests.{if◌then◌else◌}
use sc_transport.Base.Lists.{length}

module _ {ℓ} {A : Type ℓ} where
  abbrev pub count : (A → Bool) → List A → ℕ
  count f [] = 0
  count f (x ∷ xs) = (if f x then 1 else 0) + count f xs

  pub count-append : (f : A → Bool) (xs ys : List A) → count f (xs ++ ys) ≡ count f xs + count f ys
  count-append f [] ys = omega arith
  count-append f (x ∷ xs) ys = omega (arith, count-append f xs ys)

  -- Where no element passes `g`, the elements that pass `f` pass `f` without `g`.
  pub count_without :
      (f g : A → Bool) (xs : List A)
      → count g xs ≡ 0
      → count (λ x. f x && not (g x)) xs ≡ count f xs
  count_without f g [] h = refl
  count_without f g (x ∷ xs) h = ground (arith, count_without f g xs)

  pub count_all_without :
      (f g : A → Bool) (xs : List A) → count g xs ≡ length xs → count (λ x. f x && not (g x)) xs ≡ 0
  count_all_without f g [] h = refl
  count_all_without f g (x ∷ xs) h = ground (arith, count_all_without f g xs, count-le-length g xs)
    where
      count-le-length : (g : A → Bool) (xs : List A) → count g xs ≤ length xs
      count-le-length g [] = omega arith
      count-le-length g (x ∷ xs) = ground (arith, count-le-length g xs)
