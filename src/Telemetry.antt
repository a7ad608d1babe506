-- ===== src/Telemetry.antt =====
-- crates/sc-transport-core/src/lib.rs: the events that are sent about a run, and what a transport says
-- of a delivery. `V` stands for `serde_json::Value`. A message of a library is left out of an error.
pub mod Frames
pub mod Sse
pub mod Streams
pub mod Batch
pub mod Datagrams
use sc_transport.Base.{ℕ, String, Option}

pub data EventType : Type 0 where
  run_started run_completed run_failed task_queued task_started task_completed task_failed progress
        transport_fallback :
      EventType

pub record TelemetryEvent (V : Type 0) : Type 0 where
  pub run_id : String
  pub task_id : Option String
  pub event_type : EventType
  pub timestamp_ms : ℕ
  pub payload : V

pub data DeliveryStatus : Type 0 where
  sent delivered dropped : DeliveryStatus
  fell_back : String → DeliveryStatus

-- `io_failed` is an `Unavailable` with the message of an input or output error. `panicked` is no error
-- of the source: it stands where the source panics.
pub data TransportError : Type 0 where
  serialization fallback_required quic_error io_failed panicked : TransportError
  unavailable : String → TransportError

pub record TransportMetrics : Type 0 where
  pub events_sent : ℕ
  pub events_delivered : ℕ
  pub events_dropped : ℕ
  pub fallback_count : ℕ
  pub current_mode : String
  pub active_subscribers : ℕ
