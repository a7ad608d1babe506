-- ===== src/Autopilot.antt =====
-- The order in which `AutopilotRuntime` of crates/sct-core/src/adaptive/mod.rs hands packets on:
-- `optimize_transfer`, with what it asks of blocks. Its snapshot for the metrics is left out. Where a
-- scheduler has no path, the source panics at the first packet.
pub mod Optimize
pub mod Control
pub mod Laws
pub mod Transfer
use sc_transport.Base.{
  ℕ, ◌+◌, ◌*◌, max, min, Bool, true, false, ◌&&◌, ◌||◌, not, List, [], ◌∷◌, map, length, take, leb,
  ltb, ◌==◌, if◌then◌else◌, saturating_mul, saturating_sub, Option, none, some,
}
use sc_transport.Base.Float.{Float, zero_f64, sum_f64}
use sc_transport.Packet.{Packet, Block, is_complete, is_almost_complete, remaining_data_shards}
use sc_transport.Parity.{FecEncoder}
use sc_transport.Multipath.{PathState, predicted_queue_delay}
use sc_transport.Multipath.Utility.{estimate_completion, queue_model, unwrap_or}
use sc_transport.Multipath.Pick.{sort_by_utility}
use sc_transport.Multipath.Distribute.{utility_of}
use sc_transport.Multipath.Scheduler.{MultiPathScheduler, path_states_snapshot}

pub record SchedulingDecision : Type 0 where
  pub additional_shards : ℕ
  pub duplicate : Bool
  pub panic_mode : Bool

-- `sort_by` with a test for "stands before, or at the same place"
unfoldable pub insert_with : {A : Type 0} → (A → A → Bool) → A → List A → List A
insert_with before x [] = x ∷ []
insert_with before x (y ∷ ys) =
    let rest = insert_with before x ys in if before x y then x ∷ y ∷ ys else y ∷ rest

unfoldable pub sort_with : {A : Type 0} → (A → A → Bool) → List A → List A
sort_with before [] = []
sort_with before (x ∷ xs) = insert_with before x (sort_with before xs)

unfoldable pub schedule_block : Bool → Block → Bool → SchedulingDecision
schedule_block completion_first_enabled block is_straggler =
    let missing = saturating_sub block.required_shards (block.sent_shards + block.in_flight) in
    let extra = if completion_first_enabled then 1 else 0 in
    if is_complete block
    then record { additional_shards = 0; duplicate = false; panic_mode = false }
    else if completion_first_enabled && is_straggler
    then record { additional_shards = 3; duplicate = true; panic_mode = true }
    else if leb (remaining_data_shards block) 2
    then record { additional_shards = 2; duplicate = true; panic_mode = false }
    else record {
      additional_shards = min (max (missing + extra) 1) 3;
      duplicate = false;
      panic_mode = false;
    }

-- with no path to go by
unfoldable pub estimate_blindly : Block → ℕ
estimate_blindly block =
    let progress = min block.sent_shards block.required_shards in
    let missing = saturating_sub block.required_shards (max block.received_acks progress) in
    let estimate = 10_000_000 + saturating_mul missing (2 + block.in_flight) * 1_000_000 in
    if missing == 0 then min estimate 800_000 else estimate

module _ (float : Float) (scheduler : MultiPathScheduler float) (fec : FecEncoder)
    (completion_first_enabled : Bool) where
  open float use {F64, decimal, of_ℕ, mul, div, lt, as_secs_f64}

  -- from the path with the index `i` on
  unfoldable pub queue_delays : ℕ → List (PathState float) → List F64
  queue_delays i [] = []
  queue_delays i (p ∷ paths) =
      predicted_queue_delay float (queue_model float scheduler.queue_models i) p.bandwidth
      ∷ queue_delays (i + 1) paths

  unfoldable pub estimate_by_paths : List (PathState float) → Block → ℕ
  estimate_by_paths paths block =
      let q_delay = div (sum_f64 float (queue_delays 0 paths)) (of_ℕ (length paths)) in
      let est = estimate_completion float block paths [] fec.parity_shards q_delay in
      let remaining = remaining_data_shards block in
      let estimate = if remaining == 0 then min est.expected_time 800_000 else est.expected_time in
      if completion_first_enabled && leb remaining 2
      then saturating_sub estimate 8_000_000
      else if completion_first_enabled && is_almost_complete block
      then saturating_sub estimate 5_000_000
      else estimate

  unfoldable pub estimate_completion_time : Block → ℕ
  estimate_completion_time block = elim (path_states_snapshot float scheduler) [
    | [] ↦ estimate_blindly block
    | p ∷ paths ↦ estimate_by_paths (p ∷ paths) block
  ]

  -- the slowest blocks: one in twenty, and one to four
  unfoldable pub detect_stragglers : List Block → List ℕ
  detect_stragglers blocks =
      let scored =
        sort_by_utility float
          (map (λ (b : Block). (b.id, as_secs_f64 (estimate_completion_time b))) blocks) in
      let n = length blocks in
      let k = min (min (max (float.to_ℕ (float.ceil (mul (of_ℕ n) (decimal 5 2)))) 1) 4) n in
      if n == 0 then [] else map (λ (s : ℕ × F64). s.0) (take k scored)

  -- what the sending of a block is worth, with the packets `out` on their way
  unfoldable pub block_utility : List Packet → Block → F64
  block_utility out block =
      let paths = path_states_snapshot float scheduler in
      let q : F64 = elim paths [
        | [] ↦ zero_f64 float
        | p ∷ _ ↦ mul (mul (of_ℕ block.in_flight) (div (decimal 1 0) p.bandwidth)) (decimal 1500 0)
      ] in
      let est = estimate_completion float block paths out fec.parity_shards q in
      let time_s = float.max (as_secs_f64 est.expected_time) (decimal 1 6) in
      let u = div est.probability time_s in
      if leb (remaining_data_shards block) 2 then mul u (decimal 185 2) else u

  -- The mark `favor_duplicate` of a decision, which nothing reads, is left out.
  unfoldable pub optimize_global_schedule : List Packet → List Block → List (ℕ × F64)
  optimize_global_schedule out blocks =
      sort_by_utility float (map (λ (b : Block). (b.id, block_utility out b)) blocks)

  -- by the utility, then by the time it takes, the longest first, and then by the id
  unfoldable pub block_before : List (ℕ × F64) → Block → Block → Bool
  block_before utilities a b =
      let ua = unwrap_or (zero_f64 float) (utility_of utilities a.id) in
      let ub = unwrap_or (zero_f64 float) (utility_of utilities b.id) in
      let ta = estimate_completion_time a in
      let tb = estimate_completion_time b in
      lt ub ua || not (lt ua ub) && (ltb tb ta || ta == tb && leb a.id b.id)

  unfoldable pub sort_blocks : List Packet → List Block → List Block
  sort_blocks out blocks = sort_with (block_before (optimize_global_schedule out blocks)) blocks
