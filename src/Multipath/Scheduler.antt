-- ===== src/Multipath/Scheduler.antt =====
-- The state of `MultiPathScheduler` of crates/sct-core/src/adaptive/mod.rs, its operations but the
-- sending of a packet, and what the stabilizer of crates/sct-core/src/adaptive/predictive.rs tells it.
use sc_transport.Base.{
  ℕ, ◌-◌, ◌/◌, max, min, Bool, List, ◌++◌, map, length, take, replicate, ◌==◌, if◌then◌else◌,
  saturating_sub,
}
use sc_transport.Base.Float.{Float, clamp, zero_f64, one_f64, sum_f64}
use sc_transport.Base.HashSet.{HashSet, insert}
use sc_transport.Multipath.{
  TransportPath, estimated_bandwidth, update_stats, PathState, path_state, from_path_kinds,
  QueueModel, default_queue_model, tick_queue,
}
use sc_transport.Multipath.Pick.{OptimizationKpi}

module _ (float : Float) where
  open float use {F64, decimal, add, sub, mul, div, lt, as_secs_f64}

  pub record CongestionSignal : Type 0 where
    pub queue_pressure : F64
    pub retransmission_pressure : F64
    pub completion_pressure : F64

  pub record StabilityBudget : Type 0 where
    pub max_duplication_rate : F64
    pub max_fec_overhead : F64
    pub max_inflight_growth : F64

  -- The forecast, which the scheduler does not read, is left out.
  pub record PacketStabilization : Type 0 where
    pub budget : StabilityBudget
    pub pacing_scale : F64
    pub speculative_scale : F64
    pub dup_utility_scale : F64
    pub suppress_speculative_dup : Bool
    pub oscillation_damp : F64
    pub ranking_pressure_scale : F64

  pub record ControlState : Type 0 where
    pub utility_momentum : F64
    pub pacing_momentum : F64
    pub duplication_momentum : F64

  unfoldable pub smoothed_utility : F64 → F64 → F64 → F64
  smoothed_utility alpha current historical =
      let a = clamp float alpha (decimal 5 2) (decimal 95 2) in
      add (mul a current) (mul (sub (one_f64 float) a) historical)

  pub record MultiPathScheduler : Type 0 where
    pub paths : List TransportPath
    pub speculative_ratio : F64
    pub duplicate_budget : ℕ
    pub in_flight_duplicates : ℕ
    pub known_reconstructable : HashSet
    pub tokens : F64
    pub last_token_refill : ℕ
    pub last_primary_utility : F64
    pub queue_models : List (QueueModel float)
    pub path_correlation : List (List F64)
    pub optimization_kpi : OptimizationKpi float
    pub exploration_seed : ℕ

  unfoldable pub estimate_unused_bandwidth : MultiPathScheduler → F64 → F64
  estimate_unused_bandwidth s target_send_rate =
      let available = sum_f64 float (map (estimated_bandwidth float) s.paths) in
      float.max (sub available target_send_rate) (zero_f64 float)

  -- `queue_models.resize(n, QueueModel::default())`
  unfoldable pub resize_models : ℕ → List (QueueModel float) → List (QueueModel float)
  resize_models n models =
      take n models ++ replicate (n - length models) (default_queue_model float)

  unfoldable pub sync_queue_models_and_correlation : MultiPathScheduler → MultiPathScheduler
  sync_queue_models_and_correlation s = record s {
    path_correlation = from_path_kinds float (map (λ (p : TransportPath). p.path_kind) s.paths);
    queue_models =
        if length s.queue_models == length s.paths
        then s.queue_models
        else resize_models (length s.paths) s.queue_models;
  }

  unfoldable pub path_states_snapshot : MultiPathScheduler → List (PathState float)
  path_states_snapshot s = map (path_state float) s.paths

  -- two packets of 1500 bytes, which is as much as the pacer saves up
  abbrev pub burst : F64
  burst = mul (decimal 2 0) (decimal 1500 0)

  -- at the time `now`
  unfoldable pub refill_tokens : MultiPathScheduler → ℕ → F64 → MultiPathScheduler
  refill_tokens s now target_send_rate_bps =
      let elapsed = as_secs_f64 (min (saturating_sub now s.last_token_refill) 100_000_000) in
      let added = div (mul elapsed target_send_rate_bps) (decimal 8 0) in
      record s { tokens = float.min (add s.tokens added) burst; last_token_refill = now }

  unfoldable pub mark_reconstructable : MultiPathScheduler → ℕ → MultiPathScheduler
  mark_reconstructable s fec_group = record s {
    known_reconstructable = insert s.known_reconstructable fec_group;
  }

  unfoldable pub apply_network_sample : MultiPathScheduler → ℕ → F64 → F64 → MultiPathScheduler
  apply_network_sample s rtt bandwidth_bps loss_rate = record s {
    paths = map (λ (p : TransportPath). update_stats float p rtt bandwidth_bps loss_rate) s.paths;
  }

  unfoldable pub on_feedback_tick : MultiPathScheduler → MultiPathScheduler
  on_feedback_tick s =
      let drain = max (1800 / max (length s.queue_models) 1) 1 in
      record s {
        in_flight_duplicates = saturating_sub s.in_flight_duplicates 1;
        queue_models = map (λ (q : QueueModel float). tick_queue float q drain) s.queue_models;
      }
