-- ===== src/Autopilot/Control.antt =====
-- How `AutopilotRuntime` of crates/sct-core/src/adaptive/mod.rs reacts to the network: the rate, the
-- mode of a transfer, the parity of a block, and what is known of the block of a packet.
use sc_transport.Base.{
  ℕ, ◌+◌, ◌*◌, ◌/◌, ◌≤◌, ◌<◌, ◌≡◌, arith, max, min, Bool, true, false, not, ◌&&◌, ◌||◌, List, ltb,
  ◌==◌, if◌then◌else◌, saturating_add, saturating_sub,
}
use sc_transport.Base.Float.{Float, clamp, zero_f64, one_f64}
use sc_transport.Base.HashMap
use sc_transport.Base.HashMap.{HashMap}
use sc_transport.Base.HashSet.{HashSet, contains}
use sc_transport.Packet.{Packet, Block, is_complete}
use sc_transport.Parity.{FecEncoder}
use sc_transport.Multipath.Utility.{unwrap_or}
use sc_transport.Multipath.Scheduler.{CongestionSignal, MultiPathScheduler}

pub data TransferMode : Type 0 where
  conservative : TransferMode
  balanced : TransferMode
  aggressive : TransferMode

-- what is known of the block of a packet: `sent` is the number of data shards that were handed on
unfoldable pub block_context : Bool → Bool → ℕ → Packet → ℕ → ℕ → Block
block_context completed reconstructable sent packet data_shards parity_shards =
    let required = max data_shards 1 in
    let received_acks =
      if completed then required else if reconstructable then saturating_sub required 1 else 0 in
    let in_flight = saturating_sub sent received_acks in
    record {
      id = packet.fec_group;
      total_shards = saturating_add required parity_shards;
      required_shards = required;
      sent_shards = min sent required;
      received_acks = received_acks;
      in_flight = if in_flight == 0 && not completed then 1 else in_flight;
    }

module _ (float : Float) where
  open float use {F64, decimal, add, sub, mul, div, lt, as_secs_f64}

  unfoldable pub block_context_for_schedule :
      MultiPathScheduler float → HashSet → HashMap ℕ → Packet → ℕ → ℕ → Block
  block_context_for_schedule scheduler completed_blocks block_data_shards_sent packet data_shards
        parity_shards =
      let g = packet.fec_group in
      block_context (contains completed_blocks g) (contains scheduler.known_reconstructable g)
        (unwrap_or 0 (HashMap.get block_data_shards_sent g)) packet data_shards parity_shards

  pub record HysteresisThreshold : Type 0 where
    pub enter_threshold : F64
    pub exit_threshold : F64

  -- `score >= self.exit_threshold` and `score > self.enter_threshold`
  unfoldable pub step_aggressive : HysteresisThreshold → Bool → F64 → Bool
  step_aggressive h inside score =
      if inside then float.le h.exit_threshold score else lt h.enter_threshold score

  pub record ReceiverFeedback : Type 0 where
    pub decode_delay : ℕ
    pub buffer_occupancy : F64
    pub cpu_load : F64

  pub record StrategyEngine : Type 0 where
    pub mode : TransferMode
    pub aggressive_latch : Bool
    pub aggressive_hysteresis : HysteresisThreshold

  -- a factor that falls from 1 with `x` between 0 and 1
  abbrev falling : F64 → F64 → F64
  falling x weight =
      sub (one_f64 float) (mul (clamp float x (zero_f64 float) (one_f64 float)) weight)

  unfoldable pub strategy_score : ℕ → F64 → F64 → ReceiverFeedback → F64
  strategy_score rtt loss bandwidth_variance feedback =
      let one = one_f64 float in
      let rtt_ms = float.of_ℕ (rtt / 1_000_000) in
      mul
        (mul
          (mul
            (mul (clamp float (sub one (mul loss (decimal 3 0))) (zero_f64 float) one)
              (sub one (float.min (div rtt_ms (decimal 85 0)) one)))
            (falling bandwidth_variance (decimal 35 2)))
          (falling feedback.buffer_occupancy (decimal 45 2)))
        (falling feedback.cpu_load (decimal 25 2))

  unfoldable pub update_strategy :
      StrategyEngine → ℕ → F64 → F64 → ReceiverFeedback → StrategyEngine
  update_strategy s rtt loss bandwidth_variance feedback =
      let latch =
        step_aggressive s.aggressive_hysteresis s.aggressive_latch
          (strategy_score rtt loss bandwidth_variance feedback) in
      let calm =
        if lt (decimal 1 1) loss || ltb 60_000_000 feedback.decode_delay
        then conservative
        else balanced in
      if lt (decimal 12 2) loss || ltb 200_000_000 feedback.decode_delay
      then record s { aggressive_latch = false; mode = conservative }
      else record s { aggressive_latch = latch; mode = if latch then aggressive else calm }

  unfoldable pub compute_chunk_size : ℕ → F64 → ℕ
  compute_chunk_size rtt loss =
      let rtt_ms = float.of_ℕ (rtt / 1_000_000) in
      if lt (decimal 120 0) rtt_ms || lt (decimal 8 2) loss
      then 64 * 1024
      else if lt (decimal 50 0) rtt_ms || lt (decimal 3 2) loss
      then 256 * 1024
      else 1024 * 1024

  unfoldable pub compute_fec_ratio : F64 → F64 → FecEncoder
  compute_fec_ratio loss rtt_variance =
      if lt (decimal 12 2) loss || lt (decimal 8 2) rtt_variance
      then record { data_shards = 4; parity_shards = 3 }
      else if lt (decimal 5 2) loss || lt (decimal 4 2) rtt_variance
      then record { data_shards = 6; parity_shards = 2 }
      else if lt (decimal 2 2) loss || lt (decimal 2 2) rtt_variance
      then record { data_shards = 8; parity_shards = 2 }
      else record { data_shards = 10; parity_shards = 1 }

  pub record HybridCongestionController : Type 0 where
    pub bandwidth_estimate : F64
    pub min_rtt : ℕ
    pub last_rtt : ℕ
    pub loss_rate : F64
    pub rtt_gradient : F64
    pub rtt_variance : F64
    pub rtt_variance_trend : F64
    pub in_use_bandwidth : F64
    pub scheduler_queue_pressure : F64
    pub scheduler_completion_pressure : F64
    pub scheduler_retransmission_pressure : F64

  unfoldable pub fec_for_block : HybridCongestionController → ℕ → List ℕ → FecEncoder
  fec_for_block cc fec_group straggler_ids =
      let base = compute_fec_ratio cc.loss_rate cc.rtt_variance in
      let raised = max (min (base.parity_shards + 1) (base.data_shards / 2)) base.parity_shards in
      if contains straggler_ids fec_group then record base { parity_shards = raised } else base

  -- a weighted mean of the old value and a new one
  abbrev ewma : F64 → F64 → F64 → F64
  ewma weight old new = add (mul (sub (one_f64 float) weight) old) (mul weight new)

  abbrev unit : F64 → F64
  unit x = clamp float x (zero_f64 float) (one_f64 float)

  unfoldable pub apply_scheduler_signal :
      HybridCongestionController → CongestionSignal float → HybridCongestionController
  apply_scheduler_signal cc signal =
      let weight = decimal 35 2 in
      record cc {
        scheduler_queue_pressure =
            ewma weight cc.scheduler_queue_pressure (unit signal.queue_pressure);
        scheduler_completion_pressure =
            ewma weight cc.scheduler_completion_pressure (unit signal.completion_pressure);
        scheduler_retransmission_pressure =
            ewma weight cc.scheduler_retransmission_pressure (unit signal.retransmission_pressure);
      }

  unfoldable pub target_send_rate : HybridCongestionController → F64
  target_send_rate cc =
      let base = cc.bandwidth_estimate in
      let by_loss =
        if lt (decimal 15 2) cc.loss_rate
        then mul base (decimal 65 2)
        else if lt (decimal 8 2) cc.loss_rate
        then mul base (decimal 80 2)
        else if lt (decimal 5 2) cc.loss_rate
        then mul base (decimal 90 2)
        else base in
      let by_rtt =
        if lt (decimal 15 2) cc.rtt_gradient then mul by_loss (decimal 8 1) else by_loss in
      let coupling =
        sub
          (sub (sub (one_f64 float) (mul (decimal 18 2) (unit cc.scheduler_queue_pressure)))
            (mul (decimal 12 2) (unit cc.scheduler_completion_pressure)))
          (mul (decimal 8 2) (unit cc.scheduler_retransmission_pressure)) in
      float.max (mul by_rtt (float.max coupling (decimal 55 2))) (decimal 1000 0)

  unfoldable pub estimate_unused_bandwidth : HybridCongestionController → F64
  estimate_unused_bandwidth cc =
      float.max (sub cc.bandwidth_estimate cc.in_use_bandwidth) (zero_f64 float)

  unfoldable pub on_network_sample :
      HybridCongestionController → F64 → ℕ → ℕ → F64 → HybridCongestionController
  on_network_sample cc bandwidth_bps rtt prev_rtt loss_rate =
      let least = min cc.min_rtt rtt in
      let prev = as_secs_f64 prev_rtt in
      let deviation = sub (as_secs_f64 rtt) (as_secs_f64 least) in
      let variance =
        add (mul (decimal 9 1) cc.rtt_variance) (mul (decimal 1 1) (mul deviation deviation)) in
      let smooth = decimal 85 2 in
      let sampled = record cc {
        bandwidth_estimate = float.max bandwidth_bps (one_f64 float);
        min_rtt = least;
        last_rtt = rtt;
        loss_rate = unit loss_rate;
        rtt_gradient = div (sub (as_secs_f64 rtt) prev) (float.max prev (decimal 1 6));
        rtt_variance = variance;
        rtt_variance_trend =
            add (mul smooth cc.rtt_variance_trend) (mul (sub (one_f64 float) smooth) variance);
      } in
      record sampled { in_use_bandwidth = target_send_rate sampled }

  -- Whatever the network is like, a block has fewer parity shards than data shards, and a straggler no
  -- fewer parity shards than another block, with the same data shards.
  pub fec_for_block_bounds :
      (cc : HybridCongestionController) (fec_group : ℕ) (straggler_ids : List ℕ)
      → let fec = fec_for_block cc fec_group straggler_ids in
        let base = compute_fec_ratio cc.loss_rate cc.rtt_variance in
        (fec.parity_shards < fec.data_shards)
        × (base.parity_shards ≤ fec.parity_shards)
        × (fec.data_shards ≡ base.data_shards)
  unfolding fec_for_block compute_fec_ratio
  fec_for_block_bounds cc fec_group straggler_ids = ground arith

-- What is known of a block: no more shards are counted as sent or as received than it takes, it is
-- complete exactly where it was completed, and something of it is in flight where it was not.
pub block_context_bounds :
    (completed reconstructable : Bool) (sent : ℕ) (packet : Packet) (data_shards parity_shards : ℕ)
    → let b = block_context completed reconstructable sent packet data_shards parity_shards in
      (b.sent_shards ≤ b.required_shards)
      × (b.received_acks ≤ b.required_shards)
      × (is_complete b ≡ completed)
      × ((if completed then 0 else 1) ≤ b.in_flight)
unfolding block_context is_complete
block_context_bounds true r sent packet data_shards parity_shards = ground arith
block_context_bounds false true sent packet data_shards parity_shards = ground arith
block_context_bounds false false sent packet data_shards parity_shards = ground arith
