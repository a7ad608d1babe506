-- ===== src/Multipath.antt =====
-- The paths of crates/sct-core/src/adaptive/mod.rs and what
-- crates/sct-core/src/adaptive/optimization.rs knows of them: their state, their queues, how they are
-- correlated, and the numbers that are kept on the sends. `f64` is the interface Base.Float.
pub mod Utility
pub mod Pick
pub mod Scheduler
pub mod Duplicate
pub mod Distribute
pub mod Send
pub mod Laws
use sc_transport.Base.{
  ℕ, suc, ◌+◌, ◌*◌, ◌/◌, Bool, true, false, Option, none, some, List, [], ◌∷◌, ◌++◌, map, length,
  get_elem?, ◌==◌, max, if◌then◌else◌, saturating_add, saturating_sub,
}
use sc_transport.Base.Float.{Float, clamp, zero_f64, one_f64}
use sc_transport.Packet.{Packet}

pub data PathKind : Type 0 where
  stream : PathKind
  datagram : PathKind

-- A path of either kind: the numbers that its estimates are made of, and what went out on its channel.
pub record TransportPath : Type 0 where
  pub path_kind : PathKind
  pub rtt_ms : ℕ
  pub bw_kbps : ℕ
  pub loss_per_mille : ℕ
  pub sent : List Packet

unfoldable pub new_path : PathKind → TransportPath
new_path kind = record {
  path_kind = kind;
  rtt_ms = 20;
  bw_kbps = 100_000;
  loss_per_mille = 0;
  sent = [];
}

unfoldable pub send : TransportPath → Packet → TransportPath
send path packet = record path { sent = path.sent ++ (packet ∷ []) }

unfoldable pub estimated_rtt : TransportPath → ℕ
estimated_rtt path = max path.rtt_ms 1 * 1_000_000

module _ (float : Float) where
  open float use {F64, decimal, of_ℕ, add, sub, mul, div, to_ℕ}

  unfoldable pub update_stats : TransportPath → ℕ → F64 → F64 → TransportPath
  update_stats path rtt bandwidth_bps loss_rate = record path {
    rtt_ms = max (rtt / 1_000_000) 1;
    bw_kbps = to_ℕ (float.max (div bandwidth_bps (decimal 1000 0)) (decimal 1 0));
    loss_per_mille =
        to_ℕ (mul (clamp float loss_rate (zero_f64 float) (one_f64 float)) (decimal 1000 0));
  }

  unfoldable pub estimated_bandwidth : TransportPath → F64
  estimated_bandwidth path = mul (of_ℕ path.bw_kbps) (decimal 1000 0)

  unfoldable pub loss_rate : TransportPath → F64
  loss_rate path = div (of_ℕ path.loss_per_mille) (decimal 1000 0)

  pub record PathState : Type 0 where
    pub rtt : ℕ
    pub bandwidth : F64
    pub loss : F64
    pub kind : PathKind

  unfoldable pub path_state : TransportPath → PathState
  path_state path = record {
    rtt = estimated_rtt path;
    bandwidth = estimated_bandwidth path;
    loss = clamp float (loss_rate path) (zero_f64 float) (decimal 99 2);
    kind = path.path_kind;
  }

  -- `PathCorrelation::from_path_kinds`: the entries of the matrix, row by row
  unfoldable pub kind_rho : PathKind → PathKind → F64
  kind_rho stream datagram = decimal 82 2
  kind_rho datagram stream = decimal 82 2
  kind_rho stream stream = decimal 68 2
  kind_rho datagram datagram = decimal 58 2

  unfoldable pub correlation_row : ℕ → PathKind → ℕ → List PathKind → List F64
  correlation_row i kind j [] = []
  correlation_row i kind j (other ∷ kinds) =
      (if i == j then one_f64 float else kind_rho kind other) ∷ correlation_row i kind (suc j) kinds

  unfoldable pub correlation_rows : ℕ → List PathKind → List PathKind → List (List F64)
  correlation_rows i [] kinds = []
  correlation_rows i (kind ∷ rest) kinds =
      correlation_row i kind 0 kinds ∷ correlation_rows (suc i) rest kinds

  unfoldable pub from_path_kinds : List PathKind → List (List F64)
  from_path_kinds kinds = correlation_rows 0 kinds kinds

  unfoldable pub rho : List (List F64) → ℕ → ℕ → F64
  rho matrix i j = elim (get_elem? matrix i) [
    | none ↦ zero_f64 float
    | some row ↦ elim (get_elem? row j) [ none ↦ zero_f64 float | some x ↦ x ]
  ]

  pub record QueueModel : Type 0 where
    pub ewma_delay : F64
    pub inflight_bytes : ℕ
    pub pacing_backlog : ℕ
    pub queue_delay_velocity : F64
    pub prev_predicted_delay : F64
    pub last_bw : F64

  unfoldable pub default_queue_model : QueueModel
  default_queue_model = record {
    ewma_delay = zero_f64 float;
    inflight_bytes = 0;
    pacing_backlog = 0;
    queue_delay_velocity = zero_f64 float;
    prev_predicted_delay = zero_f64 float;
    last_bw = one_f64 float;
  }

  unfoldable pub predicted_queue_delay : QueueModel → F64 → F64
  predicted_queue_delay q bandwidth_bps =
      let bw = float.max bandwidth_bps (one_f64 float) in
      let ser = div (of_ℕ q.inflight_bytes) bw in
      let pacing_penalty = float.min (div (of_ℕ q.pacing_backlog) bw) (decimal 5 2) in
      add (add q.ewma_delay ser) pacing_penalty

  unfoldable pub predicted_queue_at_horizon : QueueModel → F64 → F64 → F64
  predicted_queue_at_horizon q bandwidth_bps horizon_s =
      add (predicted_queue_delay q bandwidth_bps)
        (mul q.queue_delay_velocity (float.max horizon_s (zero_f64 float)))

  -- the new velocity and prediction, for a time step and a weight
  unfoldable pub observe_delay : QueueModel → F64 → F64 → F64 → QueueModel
  observe_delay q bw dt weight =
      let new_pred = predicted_queue_delay q bw in
      let dv = div (sub new_pred q.prev_predicted_delay) dt in
      record q {
        queue_delay_velocity =
            add (mul (sub (one_f64 float) weight) q.queue_delay_velocity) (mul weight dv);
        prev_predicted_delay = new_pred;
      }

  unfoldable pub on_send : QueueModel → ℕ → F64 → F64 → QueueModel
  on_send q bytes bandwidth_bps pacing_tokens_deficit =
      let bw = float.max bandwidth_bps (one_f64 float) in
      let alpha = decimal 22 2 in
      let inst = div (of_ℕ bytes) bw in
      observe_delay
        (record q {
          last_bw = bw;
          ewma_delay = add (mul (sub (one_f64 float) alpha) q.ewma_delay) (mul alpha inst);
          inflight_bytes = saturating_add q.inflight_bytes bytes;
          pacing_backlog = to_ℕ (
              clamp float pacing_tokens_deficit (zero_f64 float)
                (mul (decimal 2 0) (decimal 1500 0)));
        })
        bw (decimal 12 3) (decimal 18 2)

  unfoldable pub tick_queue : QueueModel → ℕ → QueueModel
  tick_queue q drain_bytes =
      observe_delay (record q { inflight_bytes = saturating_sub q.inflight_bytes drain_bytes })
        (float.max q.last_bw (one_f64 float)) (decimal 2 2) (decimal 12 2)
