-- ===== src/Multipath/Utility.antt =====
-- What a send is worth: the estimates and utilities of crates/sct-core/src/adaptive/optimization.rs.
use mathlib.Core.Option
use sc_transport.Base.{
  ℕ, max, min, Option, none, some, List, [], ◌∷◌, map, filter, length, get_elem?, leb, ◌==◌,
  if◌then◌else◌, saturating_add,
}
use sc_transport.Base.Float.{Float, clamp, zero_f64, one_f64, sum_f64}
use sc_transport.Packet.{Packet, Block, remaining_data_shards}
use sc_transport.Multipath.{
  PathState, QueueModel, default_queue_model, predicted_queue_at_horizon, rho,
}

-- `.unwrap_or(..)`
abbrev pub unwrap_or {ℓ} : {A : Type ℓ} → A → Option A → A
unwrap_or a none = a
unwrap_or a (some b) = b

module _ (float : Float) where
  open float use {F64, decimal, of_ℕ, add, sub, mul, div, lt, as_secs_f64, from_secs_f64}

  pub record CompletionEstimate : Type 0 where
    pub probability : F64
    pub expected_time : ℕ

  unfoldable pub joint_failure_probability : F64 → F64 → F64 → F64
  joint_failure_probability p1 p2 r =
      let one = one_f64 float in
      let a = clamp float p1 (zero_f64 float) one in
      let b = clamp float p2 (zero_f64 float) one in
      let c = clamp float r (zero_f64 float) one in
      let corr = mul (mul c (float.sqrt (mul a (sub one a)))) (float.sqrt (mul b (sub one b))) in
      float.min (add (mul a b) corr) one

  unfoldable pub effective_paths : List (PathState float) → F64
  effective_paths paths = of_ℕ (max (length paths) 1)

  -- the packets in flight of a block
  unfoldable pub inflight_of : ℕ → List Packet → ℕ
  inflight_of id inflight = length (filter (λ (p : Packet). p.fec_group == id) inflight)

  unfoldable pub avg_rtt_s : List (PathState float) → F64
  avg_rtt_s paths =
      div
        (sum_f64 float
          (map (λ (p : PathState float). float.max (as_secs_f64 p.rtt) (decimal 1 5)) paths))
        (effective_paths paths)

  unfoldable pub avg_loss : List (PathState float) → F64
  avg_loss paths =
      div (sum_f64 float (map (λ (p : PathState float). p.loss) paths)) (effective_paths paths)

  unfoldable pub estimate_some :
      Block → List (PathState float) → List Packet → ℕ → F64 → CompletionEstimate
  estimate_some block paths inflight parity_shards queue_delay_s =
      let one = one_f64 float in
      let missing = max (remaining_data_shards block) (min block.in_flight block.required_shards) in
      let inflight_same = inflight_of block.id inflight in
      let loss = avg_loss paths in
      let p_ok = clamp float (sub one loss) (decimal 2 2) one in
      let parity_relief = float.min (mul (of_ℕ parity_shards) (decimal 12 2)) (decimal 45 2) in
      let rounds =
        div (of_ℕ missing) (float.max (mul p_ok (add one parity_relief)) (decimal 15 2)) in
      let inflight_factor =
        add (add one (mul (decimal 18 2) (of_ℕ inflight_same)))
          (mul (decimal 12 2) (of_ℕ block.in_flight)) in
      let expected_s =
        float.max (add (mul (mul (avg_rtt_s paths) rounds) inflight_factor) queue_delay_s)
          (zero_f64 float) in
      let prob =
        clamp float (sub one (float.powf loss (float.min (add (of_ℕ missing) one) (decimal 32 0))))
          (zero_f64 float) one in
      record {
        probability = float.min (add prob (mul parity_relief (decimal 25 2))) one;
        expected_time = from_secs_f64 expected_s;
      }

  unfoldable pub estimate_completion :
      Block → List (PathState float) → List Packet → ℕ → F64 → CompletionEstimate
  estimate_completion block [] inflight parity_shards queue_delay_s = record {
    probability = zero_f64 float;
    expected_time = 3600_000_000_000;
  }
  estimate_completion block (p ∷ paths) inflight parity_shards queue_delay_s =
      estimate_some block (p ∷ paths) inflight parity_shards queue_delay_s

  unfoldable pub tail_urgency_multiplier : Block → F64 → F64
  tail_urgency_multiplier block tail_penalty =
      let base = add (one_f64 float) (mul tail_penalty (decimal 40 0)) in
      if leb (remaining_data_shards block) 2 then mul base (decimal 165 2) else base

  unfoldable pub marginal_time_reduction_s :
      Block → List (PathState float) → List Packet → ℕ → ℕ → F64 → F64 → F64
  marginal_time_reduction_s block paths inflight parity_shards path_idx tail_penalty queue_delay_s =
      let base = estimate_completion block paths inflight parity_shards queue_delay_s in
      let b2 = record block { in_flight = saturating_add block.in_flight 1 } in
      let after = estimate_completion b2 paths inflight parity_shards queue_delay_s in
      let raw = sub (as_secs_f64 base.expected_time) (as_secs_f64 after.expected_time) in
      let p =
        clamp float
          (unwrap_or (decimal 5 1) (
            Option.map (λ (x : PathState float). sub (one_f64 float) x.loss)
              (get_elem? paths path_idx)))
          (decimal 5 2) (one_f64 float) in
      mul (mul (float.max raw (zero_f64 float)) p) (tail_urgency_multiplier block tail_penalty)

  unfoldable pub bandwidth_cost_s : F64 → F64 → F64 → F64
  bandwidth_cost_s packet_bytes bandwidth_bps queue_delay_s =
      let ser = div packet_bytes (float.max bandwidth_bps (one_f64 float)) in
      float.max (add ser queue_delay_s) (decimal 1 9)

  -- `queue_models.get(i).copied().unwrap_or_default()`
  unfoldable pub queue_model : List (QueueModel float) → ℕ → QueueModel float
  queue_model queue_models i = unwrap_or (default_queue_model float) (get_elem? queue_models i)

  module _ (queue_models : List (QueueModel float)) (packet : Packet) (block : Block)
      (inflight : List Packet) (parity_shards : ℕ) (tail_penalty : F64) where
    unfoldable pub utility_at : ℕ → List (PathState float) → PathState float → F64
    utility_at path_idx paths p =
        let one = one_f64 float in
        let q_delay =
          predicted_queue_at_horizon float (queue_model queue_models path_idx) p.bandwidth
            (decimal 55 2) in
        let reduction =
          marginal_time_reduction_s block paths inflight parity_shards path_idx tail_penalty
            q_delay in
        let cost = bandwidth_cost_s (of_ℕ packet.meta.size) p.bandwidth q_delay in
        let reliability = float.max (float.powf (sub one p.loss) (decimal 135 2)) (decimal 6 2) in
        let retransmission_load = add one (mul (decimal 16 1) p.loss) in
        div (mul reduction reliability) (mul cost retransmission_load)

    unfoldable pub path_send_utility : ℕ → List (PathState float) → F64
    path_send_utility path_idx paths = elim (get_elem? paths path_idx) [
      | none ↦ zero_f64 float
      | some p ↦ utility_at path_idx paths p
    ]

    -- of two different paths, whose states are `first` and `second`
    unfoldable pub duplicate_utility_at :
        ℕ → ℕ → List (PathState float) → List (List F64) → PathState float → PathState float → F64
    duplicate_utility_at primary_idx secondary_idx paths correlation first second =
        let one = one_f64 float in
        let zero_f = zero_f64 float in
        let p0 = clamp float first.loss zero_f (decimal 999 3) in
        let p1 = clamp float second.loss zero_f (decimal 999 3) in
        let r = clamp float (rho float correlation primary_idx secondary_idx) zero_f one in
        let jfail = joint_failure_probability p0 p1 r in
        let marginal_survival = sub (sub one jfail) (sub one p0) in
        let horizon =
          Option.map
            (λ (q : QueueModel float).
              predicted_queue_at_horizon float q first.bandwidth (decimal 55 2))
            (get_elem? queue_models primary_idx) in
        let est =
          estimate_completion block paths inflight parity_shards (unwrap_or zero_f horizon) in
        let reduction =
          mul
            (mul
              (mul (mul (float.max marginal_survival zero_f) (as_secs_f64 est.expected_time))
                (decimal 22 2))
              (tail_urgency_multiplier block tail_penalty))
            (sub one (mul (decimal 55 2) r)) in
        let q_delay =
          predicted_queue_at_horizon float (queue_model queue_models secondary_idx) second.bandwidth
            (decimal 55 2) in
        let cost = bandwidth_cost_s (of_ℕ packet.meta.size) second.bandwidth q_delay in
        div reduction (float.max cost (decimal 1 9))

    -- The source panics at a path that is not there; its callers give paths of the list.
    unfoldable pub duplicate_send_utility : ℕ → ℕ → List (PathState float) → List (List F64) → F64
    duplicate_send_utility primary_idx secondary_idx paths correlation =
        if primary_idx == secondary_idx
        then zero_f64 float
        else elim (get_elem? paths primary_idx) [
          | none ↦ zero_f64 float
          | some first ↦ elim (get_elem? paths secondary_idx) [
            | none ↦ zero_f64 float
            | some second ↦
                duplicate_utility_at primary_idx secondary_idx paths correlation first second
          ]
        ]
