-- ===== src/Multipath/Distribute.antt =====
-- `distribute_and_send` of crates/sct-core/src/adaptive/mod.rs: a packet goes out on the path of the
-- greatest utility, and sometimes on a second one. The clock is read once, as `now`.
use mathlib.Core.Option
use sc_transport.Base.{
  ℕ, ◌+◌, ◌*◌, Option, none, some, List, [], ◌∷◌, get_elem?, set, ltb, ◌==◌, if◌then◌else◌,
  saturating_add,
}
use sc_transport.Base.Float.{Float, zero_f64, one_f64}
use sc_transport.Packet.{Packet}
use sc_transport.Multipath.{
  TransportPath, send, estimated_rtt, estimated_bandwidth, PathState, QueueModel, on_send,
  predicted_queue_delay, rho,
}
use sc_transport.Multipath.Utility.{unwrap_or}
use sc_transport.Multipath.Scheduler.{MultiPathScheduler, burst}

-- `self.paths[i].send(packet)`. The source panics where there is no such path.
unfoldable pub send_on : List TransportPath → ℕ → Packet → List TransportPath
send_on paths i packet = elim (get_elem? paths i) [
  | none ↦ paths
  | some p ↦ set paths i (send p packet)
]

unfoldable pub exploration_epsilon : (float : Float) → ℕ → float.F64
exploration_epsilon float size =
    if ltb size (64 * 1024)
    then float.decimal 1 2
    else if ltb size (512 * 1024)
    then float.decimal 3 2
    else float.decimal 5 2

-- `.iter().find(|(i, _)| *i == idx).map(|(_, u)| *u)`
unfoldable pub utility_of : {F : Type 0} → List (ℕ × F) → ℕ → Option F
utility_of [] idx = none
utility_of ((i, u) ∷ rest) idx = if i == idx then some u else utility_of rest idx

-- the round trip of a path, and its bandwidth, which is 1 at least
unfoldable pub rtt_at : List TransportPath → ℕ → ℕ
rtt_at paths i = unwrap_or 0 (Option.map estimated_rtt (get_elem? paths i))

-- A packet that is not urgent gets a deadline from the path it goes out on.
unfoldable pub with_deadline : ℕ → ℕ → Packet → Packet
with_deadline now rtt packet =
    if ltb packet.meta.priority 200
    then record packet { meta = record packet.meta { deadline = some (now + rtt + 200_000_000) } }
    else packet

module _ (float : Float) where
  open float use {F64, decimal, of_ℕ, add, sub, mul, div, lt}

  unfoldable pub bandwidth_at : List TransportPath → ℕ → F64
  bandwidth_at paths i =
      float.max
        (unwrap_or (zero_f64 float) (Option.map (estimated_bandwidth float) (get_elem? paths i)))
        (one_f64 float)

  -- `fold(0.0, f64::max)`
  unfoldable pub max_utility : F64 → List (ℕ × F64) → F64
  max_utility acc [] = acc
  max_utility acc ((i, u) ∷ rest) = max_utility (float.max acc u) rest

  unfoldable pub blend : F64 → F64 → ℕ × F64 → ℕ × F64
  blend momentum denom (i, u) =
      (i, add (mul (decimal 88 2) u) (mul (mul (decimal 12 2) momentum) (div u denom)))

  -- the credits of the pacer, which are debited and never refuse a packet
  unfoldable pub debit : MultiPathScheduler float → ℕ → MultiPathScheduler float
  debit s size =
      if float.le (of_ℕ size) (burst float)
      then record s { tokens = float.max (sub s.tokens (of_ℕ size)) (zero_f64 float) }
      else s

  -- A send of `size` bytes is put into the queue model of a path, and the error of its prediction into
  -- the statistics.
  unfoldable pub note_send : MultiPathScheduler float → ℕ → ℕ → F64 → MultiPathScheduler float
  note_send s i size pacing_deficit = elim (get_elem? s.queue_models i) [
    | none ↦ s
    | some qm ↦
        let bw = bandwidth_at s.paths i in
        let err = float.abs (sub (predicted_queue_delay float qm bw) (div (of_ℕ size) bw)) in
        let kpi = s.optimization_kpi in
        record s {
          optimization_kpi = record kpi {
            queue_pred_error_ewma =
                add (mul (decimal 9 1) kpi.queue_pred_error_ewma) (mul (decimal 1 1) err);
          };
          queue_models = set s.queue_models i (on_send float qm size bw pacing_deficit);
        }
  ]

  unfoldable pub count_send : MultiPathScheduler float → ℕ → F64 → F64 → MultiPathScheduler float
  count_send s size probability utility =
      let kpi = s.optimization_kpi in
      record s {
        optimization_kpi = record kpi {
          completion_prob_samples = add kpi.completion_prob_samples (decimal 1 0);
          completion_prob_observed = add kpi.completion_prob_observed probability;
          bytes_sent = saturating_add kpi.bytes_sent size;
          utility_sum = add kpi.utility_sum utility;
        };
      }

  -- the predicted delay of a path's queue
  unfoldable pub queue_delay_of : MultiPathScheduler float → List (PathState float) → ℕ → F64
  queue_delay_of s paths_snap i =
      let bandwidth =
        unwrap_or (zero_f64 float)
          (Option.map (λ (p : PathState float). p.bandwidth) (get_elem? paths_snap i)) in
      unwrap_or (zero_f64 float) (
        Option.map (λ (q : QueueModel float). predicted_queue_delay float q bandwidth)
          (get_elem? s.queue_models i))

  -- The packet goes out on its path, and on the redundant one if there is one.
  unfoldable pub send_copies :
      MultiPathScheduler float → ℕ → Option ℕ → Packet → F64 → F64 → MultiPathScheduler float
  send_copies s primary_idx none packet pacing_deficit u_dup = record s {
    paths = send_on s.paths primary_idx packet;
  }
  send_copies s primary_idx (some redundant_idx) packet pacing_deficit u_dup =
      let size = packet.meta.size in
      let noted =
        note_send
          (record s {
            paths = send_on (send_on s.paths primary_idx packet) redundant_idx packet;
            in_flight_duplicates = s.in_flight_duplicates + 1;
          })
          redundant_idx size pacing_deficit in
      let kpi = noted.optimization_kpi in
      record noted {
        optimization_kpi = record kpi {
          duplicate_bytes = saturating_add kpi.duplicate_bytes size;
          duplicate_utility_sum = add kpi.duplicate_utility_sum u_dup;
          correlation_penalty_area =
              add kpi.correlation_penalty_area
                (mul (rho float noted.path_correlation primary_idx redundant_idx) (of_ℕ size));
        };
      }
