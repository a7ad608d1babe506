-- ===== src/Base/Float.antt =====
-- `f64`, as an interface: its values and the operations that the program uses, with no law but those
-- that a theorem names. A literal such as 0.15 is `decimal 15 2`, fifteen over ten squared.
use Prim.Native.Nat.{ℕ}
use mathlib.Core.Bool.{Bool}
use mathlib.Core.List.{List, [], ◌∷◌}
use sc_transport.Base.Tests.{if◌then◌else◌}

pub record Float : Type 1 where
  pub F64 : Type 0
  pub decimal : ℕ → ℕ → F64
  -- `n as f64`
  pub of_ℕ : ℕ → F64
  pub add : F64 → F64 → F64
  pub sub : F64 → F64 → F64
  pub mul : F64 → F64 → F64
  pub div : F64 → F64 → F64
  -- `a < b`
  pub lt : F64 → F64 → Bool
  pub le : F64 → F64 → Bool
  -- `a.max(b)`, `a.min(b)`, `a.abs()`, `a.sqrt()`, `a.powf(b)`, `a.round()`, `a.ceil()`
  pub max : F64 → F64 → F64
  pub min : F64 → F64 → F64
  pub abs : F64 → F64
  pub sqrt : F64 → F64
  pub powf : F64 → F64 → F64
  pub round : F64 → F64
  pub ceil : F64 → F64
  -- `x as u64` and `x as usize`, which stop at the ends of the type
  pub to_ℕ : F64 → ℕ
  -- `Duration::as_secs_f64` and `Duration::from_secs_f64`, of a number of nanoseconds
  pub as_secs_f64 : ℕ → F64
  pub from_secs_f64 : F64 → ℕ

module _ (float : Float) where
  open float use {F64, lt, decimal, add}

  abbrev pub zero_f64 : F64
  zero_f64 = decimal 0 0

  abbrev pub one_f64 : F64
  one_f64 = decimal 1 0

  -- `.sum::<f64>()`
  abbrev sum_onto : F64 → List F64 → F64
  sum_onto acc [] = acc
  sum_onto acc (x ∷ xs) = sum_onto (add acc x) xs

  abbrev pub sum_f64 : List F64 → F64
  sum_f64 = sum_onto zero_f64

  -- `x.clamp(lo, hi)`
  abbrev pub clamp : F64 → F64 → F64 → F64
  clamp x lo hi = let raised = if lt x lo then lo else x in if lt hi raised then hi else raised
