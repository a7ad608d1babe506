-- ===== src/Daemon.antt =====
-- crates/sct-daemon/src/main.rs: the daemon's records of transfers, its queue, and its log of events.
-- An `f64` is the number of its bits (`f64::to_bits`), a `Uuid` a number. A file of the daemon is the
-- list that it holds; whether it can be written is a flag.
pub mod Recovery
pub mod Handlers
pub mod Scheduler
pub mod Progress
pub mod Planned
pub mod Order
pub mod Steps
pub mod Access
pub mod Paths
use sc_transport.Base.{
  ℕ, ◌+◌, ◌-◌, min, max, String, Bool, true, false, Option, none, some, List, [], ◌∷◌, ◌++◌, ltb,
  ◌==◌, if◌then◌else◌, ◌&&◌, ◌||◌, map,
}
use sc_transport.Base.HashMap
use sc_transport.Base.HashMap.{HashMap}

pub data TransferStatus : Type 0 where
  queued active completed failed cancelled : TransferStatus

abbrev pub F64 : Type 0
F64 = ℕ

pub record TransferRecord : Type 0 where
  pub transfer_id : ℕ
  pub source : String
  pub destination : String
  pub priority : ℕ
  pub status : TransferStatus
  pub progress_pct : F64
  pub throughput_mbps : F64
  pub bytes_transferred : ℕ
  pub bytes_total : ℕ
  pub error : Option String
  pub created_at_unix_ms : ℕ
  pub updated_at_unix_ms : ℕ
  pub attempts : ℕ

pub record TransferEventRecord : Type 0 where
  pub ts_unix_ms : ℕ
  pub transfer_id : ℕ
  pub kind : String
  pub source : Option String
  pub destination : Option String
  pub priority : Option ℕ
  pub status : Option TransferStatus
  pub progress_pct : Option F64
  pub throughput_mbps : Option F64
  pub bytes_transferred : Option ℕ
  pub bytes_total : Option ℕ
  pub error : Option String

pub record QueueEntry : Type 0 where
  pub priority : ℕ
  pub seq : ℕ
  pub transfer_id : ℕ

-- a `watch` channel of tokio: its value, and how many receivers it has
pub record Watch : Type 0 where
  pub value : Bool
  pub receivers : ℕ

-- `watch::channel(false)`, whose receiver is dropped
abbrev pub watch_channel : Watch
watch_channel = record { value = false; receivers = 0 }

-- `tx.send(true)`, which fails and keeps the value where there is no receiver
unfoldable pub send_cancel : Watch → Watch
send_cancel tx = if tx.receivers == 0 then tx else record tx { value = true }

-- `tx.subscribe()`
unfoldable pub subscribe_cancel : Watch → Watch
subscribe_cancel tx = record tx { receivers = tx.receivers + 1 }

-- the end of a receiver
unfoldable pub drop_cancel_rx : Watch → Watch
drop_cancel_rx tx = record tx { receivers = tx.receivers - 1 }

-- `state_file` is what the file at `state_path` holds, if it exists, and `events` the lines of the one
-- at `events_path`.
pub record AppState : Type 0 where
  pub queue : List QueueEntry
  pub records : HashMap TransferRecord
  pub permits : ℕ
  pub sequence : ℕ
  pub state_file : Option (List TransferRecord)
  pub events : List TransferEventRecord
  pub cancels : HashMap Watch
  pub state_writable : Bool
  pub events_writable : Bool

abbrev pub or_else {ℓ} : {A : Type ℓ} → Option A → A → A
or_else (some a) b = a
or_else none b = b

abbrev pub is_queued : TransferStatus → Bool
is_queued TransferStatus.queued = true
is_queued _ = false

abbrev pub is_active : TransferStatus → Bool
is_active TransferStatus.active = true
is_active _ = false

abbrev pub is_cancelled : TransferStatus → Bool
is_cancelled TransferStatus.cancelled = true
is_cancelled _ = false

-- an event that says nothing but its kind and the status
abbrev pub status_event : ℕ → ℕ → String → TransferStatus → TransferEventRecord
status_event ts id kind status = record {
  ts_unix_ms = ts;
  transfer_id = id;
  kind = kind;
  source = none;
  destination = none;
  priority = none;
  status = some status;
  progress_pct = none;
  throughput_mbps = none;
  bytes_transferred = none;
  bytes_total = none;
  error = none;
}

-- `priority.clamp(1, 10)`
abbrev pub clamp_priority : ℕ → ℕ
clamp_priority p = min (max p 1) 10

unfoldable pub apply_event : TransferRecord → TransferEventRecord → TransferRecord
apply_event rec event = record {
  transfer_id = rec.transfer_id;
  source = or_else event.source rec.source;
  destination = or_else event.destination rec.destination;
  priority = or_else event.priority rec.priority;
  status = or_else event.status rec.status;
  progress_pct = or_else event.progress_pct rec.progress_pct;
  throughput_mbps = or_else event.throughput_mbps rec.throughput_mbps;
  bytes_transferred = or_else event.bytes_transferred rec.bytes_transferred;
  bytes_total = or_else event.bytes_total rec.bytes_total;
  error = elim event.error [ none ↦ rec.error | some e ↦ some e ];
  created_at_unix_ms =
      if rec.created_at_unix_ms == 0 then event.ts_unix_ms else rec.created_at_unix_ms;
  updated_at_unix_ms = event.ts_unix_ms;
  attempts = rec.attempts;
}

unfoldable pub append_event : AppState → TransferEventRecord → AppState
append_event s event =
    if s.events_writable then record s { events = s.events ++ (event ∷ []) } else s

unfoldable pub persist_records : AppState → AppState
persist_records s =
    if s.state_writable then record s { state_file = some (map (λ e. e.1) s.records) } else s

unfoldable pub enqueue_transfer : AppState → ℕ → ℕ → AppState
enqueue_transfer s transfer_id priority =
    let entry : QueueEntry = record {
      priority = clamp_priority priority;
      seq = s.sequence + 1;
      transfer_id = transfer_id;
    } in
    record s { sequence = s.sequence + 1; queue = entry ∷ s.queue }

-- whether the queue has an entry for a transfer
unfoldable pub queued_in : List QueueEntry → ℕ → Bool
queued_in [] id = false
queued_in (e ∷ queue) id = e.transfer_id == id || queued_in queue id
