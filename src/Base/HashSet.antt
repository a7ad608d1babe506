-- ===== src/Base/HashSet.antt =====
-- `HashSet<u64>`: a list without repetitions. The order of the list stands for the unspecified
-- order of iteration.
pub mod Count
use Prim.Native.Nat.{ℕ}
use mathlib.Core.Path.{◌≡◌, refl}
use mathlib.Core.Logic.{inl, inr}
use mathlib.Core.Bool.{Bool, false, ◌||◌}
use mathlib.Core.List.{List, [], ◌∷◌}
use native.Mathlib.Omega.{arith}
use sc_transport.Base.Tests.{◌==◌, if◌then◌else◌, Bool-cases}

abbrev pub HashSet : Type 0
HashSet = List ℕ

unfoldable pub contains : HashSet → ℕ → Bool
contains [] a = false
contains (x ∷ xs) a = x == a || contains xs a

unfoldable pub insert : HashSet → ℕ → HashSet
insert s a = if contains s a then s else a ∷ s

-- No element is listed twice, so that the length is the number of elements.
abbrev pub IsDistinct : HashSet → Type 0
IsDistinct [] = Unit
IsDistinct (x ∷ xs) = (contains xs x ≡ false) × IsDistinct xs

pub contains-insert : (s : HashSet) (a b : ℕ) → contains (insert s a) b ≡ (a == b || contains s b)
unfolding insert contains
contains-insert s a b = elim (Bool-cases (contains s a)) [
  | inl old ↦ rw old (ground (arith, old))
  | inr new ↦ rw new refl
]

pub insert-IsDistinct : (s : HashSet) (a : ℕ) → IsDistinct s → IsDistinct (insert s a)
unfolding insert
insert-IsDistinct s a h = elim (Bool-cases (contains s a)) [
  | inl old ↦ rw old h
  | inr new ↦ rw new (new, h)
]
