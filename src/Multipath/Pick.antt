-- ===== src/Multipath/Pick.antt =====
-- The choice of a path: `pick_primary_path` of crates/sct-core/src/adaptive/optimization.rs, and the
-- numbers that are kept on the sends.
use Prim.Native.Nat.{bit_xor}
use sc_transport.Base.{
  ℕ, ◌*◌, ◌/◌, ◌%◌, ◌^◌, Bool, Option, none, some, List, [], ◌∷◌, leb, ◌==◌, ◌&&◌, ◌||◌, not,
  if◌then◌else◌, u64_max,
}
use sc_transport.Base.Float.{Float, clamp, zero_f64, one_f64}

module _ (float : Float) where
  open float use {F64, decimal, of_ℕ, sub, mul, div, lt}

  -- Of two paths with their utilities, the first stands before the second, or at its place: by
  -- `partial_cmp`, where what cannot be compared is equal, and then by the index.
  unfoldable pub comes_before : ℕ × F64 → ℕ × F64 → Bool
  comes_before (i, u) (j, v) = lt v u || not (lt u v) && leb i j

  unfoldable pub insert_by_utility : ℕ × F64 → List (ℕ × F64) → List (ℕ × F64)
  insert_by_utility x [] = x ∷ []
  insert_by_utility x (y ∷ ys) =
      let rest = insert_by_utility x ys in if comes_before x y then x ∷ y ∷ ys else y ∷ rest

  -- `sort_by(..)`
  unfoldable pub sort_by_utility : List (ℕ × F64) → List (ℕ × F64)
  sort_by_utility [] = []
  sort_by_utility (x ∷ xs) = insert_by_utility x (sort_by_utility xs)

  unfoldable pub epsilon_greedy_explore : F64 → F64 → Bool
  epsilon_greedy_explore epsilon rng_u01 =
      lt rng_u01 (clamp float epsilon (zero_f64 float) (decimal 5 1))

  unfoldable pub xorshift : ℕ → ℕ
  xorshift seed =
      let a = bit_xor seed (seed * 2 ^ 13 % 2 ^ 64) in
      let b = bit_xor a (a / 2 ^ 7) in bit_xor b (b * 2 ^ 17 % 2 ^ 64)

  unfoldable pub xorshift_u01 : ℕ → F64
  xorshift_u01 shifted =
      clamp float (div (of_ℕ shifted) (of_ℕ u64_max)) (zero_f64 float) (one_f64 float)

  -- the index, and the new seed, from the paths in the order of their utilities
  unfoldable pub pick_sorted : List (ℕ × F64) → ℕ → F64 → Option ℕ × ℕ
  pick_sorted [] seed epsilon = (none, seed)
  pick_sorted ((i, u) ∷ []) seed epsilon = (some i, seed)
  pick_sorted ((i, u) ∷ (j, v) ∷ rest) seed epsilon =
      let shifted = xorshift seed in
      if epsilon_greedy_explore epsilon (xorshift_u01 shifted)
      then (some j, shifted)
      else (some i, shifted)

  unfoldable pub pick_primary_path : List (ℕ × F64) → ℕ → F64 → Option ℕ × ℕ
  pick_primary_path utilities seed epsilon = pick_sorted (sort_by_utility utilities) seed epsilon

  pub record OptimizationKpi : Type 0 where
    pub bytes_sent : ℕ
    pub utility_sum : F64
    pub duplicate_bytes : ℕ
    pub duplicate_utility_sum : F64
    pub correlation_penalty_area : F64
    pub queue_pred_error_ewma : F64
    pub completion_prob_samples : F64
    pub completion_prob_observed : F64

  unfoldable pub utility_per_transmitted_byte : OptimizationKpi → F64
  utility_per_transmitted_byte kpi =
      if kpi.bytes_sent == 0 then zero_f64 float else div kpi.utility_sum (of_ℕ kpi.bytes_sent)

  unfoldable pub duplication_efficiency : OptimizationKpi → F64
  duplication_efficiency kpi =
      if kpi.duplicate_bytes == 0
      then zero_f64 float
      else div kpi.duplicate_utility_sum (of_ℕ kpi.duplicate_bytes)

  unfoldable pub queue_prediction_accuracy_score : OptimizationKpi → F64
  queue_prediction_accuracy_score kpi =
      let one = one_f64 float in
      div one (float.add one (mul kpi.queue_pred_error_ewma (decimal 1000 0)))

  unfoldable pub completion_probability_accuracy : OptimizationKpi → F64
  completion_probability_accuracy kpi =
      if float.le kpi.completion_prob_samples (zero_f64 float)
      then zero_f64 float
      else sub (one_f64 float) (
          float.min (float.abs (div kpi.completion_prob_observed kpi.completion_prob_samples))
            (one_f64 float))
