-- ===== src/Multipath/Laws.antt =====
-- Which path is chosen: one of the scheduler's, and a second one that is not the first.
pub mod Logs
pub mod Out
pub mod Second
pub mod Sends
pub mod Suppress
use sc_transport.Base.{
  ℕ, zero, suc, ◌+◌, ◌≤◌, ◌<◌, ◌≡◌, ◌≢◌, refl, arith, Bool, true, false, not, ◌&&◌, ◌||◌, some,
  List, [], ◌∷◌, map, length, range, range_from, leb, ◌==◌, if◌then◌else◌, Bool-cases, inl, inr,
  ==_iff,
}
use sc_transport.Base.Float.{Float}
use sc_transport.Multipath.Pick.{
  comes_before, insert_by_utility, sort_by_utility, pick_sorted, pick_primary_path, xorshift,
  xorshift_u01, epsilon_greedy_explore,
}
use sc_transport.Multipath.Duplicate.{find_other}
use sc_transport.Multipath.Distribute.{blend}

-- The indices are below `n`.
abbrev pub AreInRange : {F : Type 0} → ℕ → List (ℕ × F) → Type 0
AreInRange n [] = Unit
AreInRange n ((i, u) ∷ rest) = (i < n) × AreInRange n rest

pub map-range_from-AreInRange :
    {F : Type 0} (n : ℕ) (f : ℕ → F) (from k : ℕ)
    → from + k ≤ n
    → AreInRange n (map (λ (i : ℕ). (i, f i)) (range_from from k))
map-range_from-AreInRange n f from zero h = tt
map-range_from-AreInRange n f from (suc k) h =
    (omega arith, map-range_from-AreInRange n f (suc from) k (omega arith))

pub find_other_lem :
    {F : Type 0} (n : ℕ) (xs : List (ℕ × F)) (primary i : ℕ)
    → AreInRange n xs
    → find_other xs primary ≡ some i
    → (i < n) × (i ≢ primary)
unfolding find_other
find_other_lem n [] primary i h e = absurd (ground arith)
find_other_lem n ((j, u) ∷ rest) primary i h e = ground (arith, find_other_lem n rest primary i h.1)

module _ (float : Float) (n : ℕ) where
  open float use {F64}

  insert_by_utility-AreInRange :
      (x : ℕ × F64) (xs : List (ℕ × F64))
      → AreInRange n (x ∷ [])
      → AreInRange n xs
      → AreInRange n (insert_by_utility float x xs)
  unfolding insert_by_utility
  insert_by_utility-AreInRange x [] h hs = h
  insert_by_utility-AreInRange x (y ∷ xs) h hs = elim (Bool-cases (comes_before float x y)) [
    | inl first ↦ rw first (h.0, hs)
    | inr later ↦ rw later (hs.0, insert_by_utility-AreInRange x xs h hs.1)
  ]

  pub sort_by_utility-AreInRange :
      (xs : List (ℕ × F64)) → AreInRange n xs → AreInRange n (sort_by_utility float xs)
  unfolding sort_by_utility
  sort_by_utility-AreInRange [] h = tt
  sort_by_utility-AreInRange (x ∷ xs) h =
      insert_by_utility-AreInRange x (sort_by_utility float xs) (h.0, tt)
        (sort_by_utility-AreInRange xs h.1)

  length-insert_by_utility :
      (x : ℕ × F64) (xs : List (ℕ × F64)) → length (insert_by_utility float x xs) ≡ suc (length xs)
  unfolding insert_by_utility
  length-insert_by_utility x [] = refl
  length-insert_by_utility x (y ∷ xs) = elim (Bool-cases (comes_before float x y)) [
    | inl first ↦ rw first refl
    | inr later ↦ rw later (omega (arith, length-insert_by_utility x xs))
  ]

  length-sort_by_utility : (xs : List (ℕ × F64)) → length (sort_by_utility float xs) ≡ length xs
  unfolding sort_by_utility
  length-sort_by_utility [] = refl
  length-sort_by_utility (x ∷ xs) =
      omega
        (arith, length-insert_by_utility x (sort_by_utility float xs), length-sort_by_utility xs)

  pick_sorted_lem :
      (xs : List (ℕ × F64)) (seed : ℕ) (epsilon : F64)
      → AreInRange n xs
      → 0 < length xs
      → (i : ℕ) × ((pick_sorted float xs seed epsilon).0 ≡ some i) × (i < n)
  unfolding pick_sorted
  pick_sorted_lem [] seed epsilon h nonempty = absurd (omega arith)
  pick_sorted_lem ((i, u) ∷ []) seed epsilon h nonempty = (i, refl, h.0)
  pick_sorted_lem ((i, u) ∷ (j, v) ∷ rest) seed epsilon h nonempty =
      let explore =
        epsilon_greedy_explore float epsilon (xorshift_u01 float (xorshift float seed)) in
      elim (Bool-cases explore) [
        | inl second ↦ (j, rw second refl, h.1.0)
        | inr first ↦ (i, rw first refl, h.0)
      ]

  -- Where there are paths, one of them is picked.
  pub pick_primary_path_lem :
      (xs : List (ℕ × F64)) (seed : ℕ) (epsilon : F64)
      → AreInRange n xs
      → 0 < length xs
      → (i : ℕ) × ((pick_primary_path float xs seed epsilon).0 ≡ some i) × (i < n)
  unfolding pick_primary_path
  pick_primary_path_lem xs seed epsilon h nonempty =
      pick_sorted_lem (sort_by_utility float xs) seed epsilon (sort_by_utility-AreInRange xs h)
        (omega (arith, length-sort_by_utility xs))

  pub blend-AreInRange :
      (momentum denom : F64) (xs : List (ℕ × F64))
      → AreInRange n xs
      → AreInRange n (map (blend float momentum denom) xs)
  unfolding blend
  blend-AreInRange momentum denom [] h = tt
  blend-AreInRange momentum denom ((i, u) ∷ xs) h = (h.0, blend-AreInRange momentum denom xs h.1)
