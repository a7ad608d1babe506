-- ===== src/Base/HashSet/Count.antt =====
-- A set of `n` numbers below `n` has all of them.
use sc_transport.Base.Tests.{◌==◌, if◌then◌else◌, Bool-cases, ==_refl}
use Prim.Native.Nat.{ℕ, zero, suc, ◌+◌, ◌≤◌, ◌<◌}
use mathlib.Core.Path.{◌≡◌, refl}
use mathlib.Core.Logic.{inl, inr}
use mathlib.Core.Bool.{true, false, ◌&&◌, not}
use mathlib.Core.List.{[], ◌∷◌}
use native.Mathlib.Omega.{arith}
use sc_transport.Base.Lists.{length}
use sc_transport.Base.HashSet.{HashSet, contains, insert, IsDistinct}

without : HashSet → ℕ → HashSet
without [] a = []
without (x ∷ xs) a = let rest = without xs a in if x == a then rest else x ∷ rest

contains-without :
    (s : HashSet) (a b : ℕ) → contains (without s a) b ≡ (contains s b && not (a == b))
unfolding without contains
contains-without [] a b = refl
contains-without (x ∷ xs) a b = ground (arith, contains-without xs a b)

without-IsDistinct : (s : HashSet) (a : ℕ) → IsDistinct s → IsDistinct (without s a)
unfolding without
without-IsDistinct [] a h = h
without-IsDistinct (x ∷ xs) a h =
    ground (arith, contains-without xs a x, without-IsDistinct xs a h.1)

length-without_absent :
    (s : HashSet) (a : ℕ) → contains s a ≡ false → length (without s a) ≡ length s
unfolding without contains
length-without_absent [] a h = refl
length-without_absent (x ∷ xs) a h = ground (arith, length-without_absent xs a)

length-without : (s : HashSet) (a : ℕ) → IsDistinct s → length s ≤ length (without s a) + 1
unfolding without contains
length-without [] a h = omega arith
length-without (x ∷ xs) a h = ground (arith, length-without xs a h.1, length-without_absent xs a)

pub length-le_of_below :
    (n : ℕ) (s : HashSet) → IsDistinct s → ((i : ℕ) → contains s i ≡ true → i < n) → length s ≤ n
length-le_of_below zero [] d h = omega arith
length-le_of_below zero (x ∷ xs) d h =
    absurd (omega (arith, h x (unfold contains in rw (==_refl x) refl)))
length-le_of_below (suc n) s d h = omega (
  arith,
  length-without s n d,
  length-le_of_below n (without s n) (without-IsDistinct s n d)
      (λ i c. ground (arith, contains-without s n i, h i)),
)

pub contains_of_length :
    (n : ℕ) (s : HashSet) (a : ℕ)
    → IsDistinct s
    → ((i : ℕ) → contains s i ≡ true → i < n)
    → n ≤ length s
    → a < n
    → contains s a ≡ true
unfolding contains
contains_of_length n s a d h full lt = elim (Bool-cases (contains s a)) [
  | inl there ↦ there
  | inr absent ↦
      absurd (omega (arith, length-le_of_below n (a ∷ s) (absent, d) (λ i c. ground (arith, h i))))
]

pub length-insert :
    (s : HashSet) (a : ℕ)
    → length (insert s a) ≡ (if contains s a then length s else suc (length s))
unfolding insert
length-insert s a = ground arith

length-without_there :
    (s : HashSet) (a : ℕ) → contains s a ≡ true → length (without s a) + 1 ≤ length s
unfolding without contains
length-without_there [] a h = cc
length-without_there (x ∷ xs) a h =
    ground
      (arith, length-without_there xs a, length-without_absent xs a, Bool-cases (contains xs a))

-- A set that has all the numbers below `n` has at least `n` elements.
pub length-ge_of_contains :
    (n : ℕ) (s : HashSet) → ((i : ℕ) → i < n → contains s i ≡ true) → n ≤ length s
length-ge_of_contains zero s h = omega arith
length-ge_of_contains (suc n) s h = omega (
  arith,
  length-without_there s n (h n (omega arith)),
  length-ge_of_contains n (without s n) (λ i lt. ground (arith, contains-without s n i, h i)),
)
