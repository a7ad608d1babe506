-- ===== src/Daemon/Scheduler.antt =====
-- `spawn_scheduler` of crates/sct-daemon/src/main.rs: what is taken from the queue, and how a job
-- starts and ends. `now` is what the clock says when a record is changed, and `ts` what it says when
-- an event is logged.
use sc_transport.Base.{
  ℕ, ◌+◌, ◌-◌, ◌^◌, min, String, Bool, true, false, Option, none, some, List, [], ◌∷◌, ltb, ◌==◌,
  ◌&&◌, ◌||◌, if◌then◌else◌,
}
use sc_transport.Base.HashMap
use sc_transport.Base.HashMap.{HashMap}
use sc_transport.Daemon.{
  status_event, TransferStatus, F64, TransferRecord, TransferEventRecord, QueueEntry, AppState,
  is_queued, is_cancelled, watch_channel, subscribe_cancel, drop_cancel_rx, append_event,
  persist_records,
}

-- whether `BinaryHeap<(Reverse<u8>, u64, Uuid)>` pops `e` rather than `f`
unfoldable pub before : QueueEntry → QueueEntry → Bool
before e f =
    ltb e.priority f.priority
    || (e.priority == f.priority
        && (ltb f.seq e.seq || (f.seq == e.seq && ltb f.transfer_id e.transfer_id)))

unfoldable pub pop : List QueueEntry → Option (QueueEntry × List QueueEntry)
pop [] = none
pop (e ∷ queue) = elim (pop queue) [
  | none ↦ some (e, [])
  | some (f, rest) ↦ if before f e then some (f, e ∷ rest) else some (e, f ∷ rest)
]

-- One round of the scheduler up to the wait for a permit: the transfer to start, if the entry is
-- still good.
unfoldable pub next_transfer : AppState → AppState × Option ℕ
next_transfer s = elim (pop s.queue) [
  | none ↦ (s, none)
  | some (e, rest) ↦
      let popped : AppState = record s { queue = rest } in
      elim (HashMap.get s.records e.transfer_id) [
        | none ↦ (popped, none)
        | some rec ↦
            if is_queued rec.status && rec.priority == e.priority
            then (popped, some e.transfer_id)
            else (popped, none)
      ]
]

-- `acquire_owned`; `none` is to wait.
unfoldable pub acquire : AppState → Option AppState
acquire s = if s.permits == 0 then none else some (record s { permits = s.permits - 1 })

abbrev pub release : AppState → AppState
release s = record s { permits = s.permits + 1 }

-- the record of a job that starts
abbrev pub active_record : ℕ → TransferRecord → TransferRecord
active_record now rec = record rec {
  status = TransferStatus.active;
  attempts = min (rec.attempts + 1) (2 ^ 32 - 1);
  updated_at_unix_ms = now;
}

-- what a job does before it runs, once its record is changed
unfoldable pub log_start : AppState → ℕ → ℕ → AppState
log_start s ts id =
    let event = status_event ts id "started" TransferStatus.active in
    let saved = persist_records (append_event s event) in
    record saved {
      cancels = elim (HashMap.get saved.cancels id) [
        | none ↦ HashMap.put saved.cancels id (subscribe_cancel watch_channel)
        | some tx ↦ HashMap.put saved.cancels id (subscribe_cancel tx)
      ];
    }

-- The start of a job that has its permit, and whether it runs on.
unfoldable pub start_job : AppState → ℕ → ℕ → ℕ → AppState × Bool
start_job s now ts id = elim (HashMap.get s.records id) [
  | none ↦ (log_start s ts id, true)
  | some rec ↦ if is_cancelled rec.status then (release s, false) else (
    log_start (record s { records = HashMap.put s.records id (active_record now rec) }) ts id,
    true,
  )
]

-- `cancel_rx` and then `_permit` are dropped.
unfoldable pub drop_job : AppState → ℕ → AppState
drop_job s id = release (record s {
  cancels = elim (HashMap.get s.cancels id) [
    | none ↦ s.cancels
    | some tx ↦ HashMap.put s.cancels id (drop_cancel_rx tx)
  ];
})

-- The end of `run_transfer_job`, when everything was sent, and of the job; `hundred` is 100.0.
abbrev pub hundred : F64
hundred = 4636737291354636288

unfoldable pub complete_job : AppState → ℕ → ℕ → ℕ → AppState
complete_job s now ts id =
    let event : TransferEventRecord =
      record (status_event ts id "completed" TransferStatus.completed) {
        progress_pct = some hundred;
      } in
    let records : HashMap TransferRecord = elim (HashMap.get s.records id) [
      | none ↦ s.records
      | some rec ↦
          if is_cancelled rec.status
          then s.records
          else HashMap.put s.records id (record rec {
            status = TransferStatus.completed;
            progress_pct = hundred;
            error = none;
            updated_at_unix_ms = now;
          })
    ] in
    drop_job (persist_records (append_event (record s { records = records }) event)) id

-- The end of a job whose `run_transfer_job` failed with a message.
unfoldable pub fail_job : AppState → ℕ → ℕ → ℕ → String → AppState
fail_job s now ts id message =
    let event : TransferEventRecord = record (status_event ts id "failed" TransferStatus.failed) {
      error = some message;
    } in
    let records : HashMap TransferRecord = elim (HashMap.get s.records id) [
      | none ↦ s.records
      | some rec ↦ HashMap.put s.records id (record rec {
        status = TransferStatus.failed;
        error = some message;
        updated_at_unix_ms = now;
      })
    ] in
    drop_job (persist_records (append_event (record s { records = records }) event)) id

-- The end of a job that was told to stop.
unfoldable pub stop_job : AppState → ℕ → AppState
stop_job s id = drop_job (persist_records s) id
