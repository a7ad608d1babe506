-- ===== src/Daemon/Handlers.antt =====
-- The handlers of crates/sct-daemon/src/main.rs that change the state. `now` is what the clock says
-- when a record is changed, and `ts` what it says when an event is logged.
use sc_transport.Base.{ℕ, String, not, Option, none, some, if◌then◌else◌}
use sc_transport.Base.HashMap
use sc_transport.Base.HashMap.{HashMap}
use sc_transport.Daemon.{
  status_event, TransferStatus, TransferRecord, TransferEventRecord, AppState, is_active,
  watch_channel, send_cancel, clamp_priority, append_event, persist_records, enqueue_transfer,
}

-- the record of a transfer that was just submitted, made between `now` and `now'`
unfoldable pub submitted_record : ℕ → ℕ → ℕ → String → String → ℕ → TransferRecord
submitted_record now now' id source destination priority = record {
  transfer_id = id;
  source = source;
  destination = destination;
  priority = clamp_priority priority;
  status = TransferStatus.queued;
  progress_pct = 0;
  throughput_mbps = 0;
  bytes_transferred = 0;
  bytes_total = 0;
  error = none;
  created_at_unix_ms = now;
  updated_at_unix_ms = now';
  attempts = 0;
}

-- `id` is the new random id
unfoldable pub submit_transfer : AppState → ℕ → ℕ → ℕ → ℕ → String → String → ℕ → AppState
submit_transfer s now now' ts id source destination priority =
    let rec = submitted_record now now' id source destination priority in
    let event : TransferEventRecord =
      record (status_event ts id "submitted" TransferStatus.queued) {
        source = some source;
        destination = some destination;
        priority = some (clamp_priority priority);
        progress_pct = some 0;
        throughput_mbps = some 0;
        bytes_transferred = some 0;
        bytes_total = some 0;
      } in
    let filed : AppState = record s {
      records = HashMap.put s.records id rec;
      cancels = HashMap.put s.cancels id watch_channel;
    } in
    persist_records (append_event (enqueue_transfer filed id (clamp_priority priority)) event)

-- `none` is the answer `NOT_FOUND`.
unfoldable pub cancel_transfer : AppState → ℕ → ℕ → ℕ → Option AppState
cancel_transfer s now ts id = elim (HashMap.get s.records id) [
  | none ↦ none
  | some rec ↦
      let changed : TransferRecord = record rec {
        status = TransferStatus.cancelled;
        updated_at_unix_ms = now;
      } in
      let told : AppState = record s {
        records = HashMap.put s.records id changed;
        cancels = elim (HashMap.get s.cancels id) [
          | none ↦ s.cancels
          | some tx ↦ HashMap.put s.cancels id (send_cancel tx)
        ];
      } in
      some (
        persist_records
          (append_event told (status_event ts id "cancelled" TransferStatus.cancelled)))
]

unfoldable pub update_priority : AppState → ℕ → ℕ → ℕ → ℕ → Option AppState
update_priority s now ts id priority = elim (HashMap.get s.records id) [
  | none ↦ none
  | some rec ↦
      let should_enqueue = not (is_active rec.status) in
      let changed : TransferRecord = record rec {
        priority = clamp_priority priority;
        updated_at_unix_ms = now;
        status = if should_enqueue then TransferStatus.queued else rec.status;
      } in
      let filed : AppState = record s { records = HashMap.put s.records id changed } in
      let planned =
        if should_enqueue then enqueue_transfer filed id (clamp_priority priority) else filed in
      let event : TransferEventRecord =
        record (status_event ts id "priority_updated" changed.status) {
          priority = some (clamp_priority priority);
        } in
      some (persist_records (append_event planned event))
]
