-- ===== src/Daemon/Progress.antt =====
-- What a running job notes in its record, in `run_transfer_job` of crates/sct-daemon/src/main.rs. The
-- percentages and rates, which the source computes in `f64`, are arguments.
use sc_transport.Base.{ℕ, none, some}
use sc_transport.Base.HashMap
use sc_transport.Daemon.{
  TransferStatus, F64, TransferRecord, TransferEventRecord, AppState, append_event, status_event,
}
use sc_transport.Daemon.Scheduler.{hundred}

-- the size of the file, once it is known
unfoldable pub note_total : AppState → ℕ → ℕ → AppState
note_total s id total = elim (HashMap.get s.records id) [
  | none ↦ s
  | some rec ↦ record s { records = HashMap.put s.records id (record rec { bytes_total = total }) }
]

-- the record of a job that has moved `moved` of `total` bytes
abbrev pub moved_record : ℕ → ℕ → ℕ → F64 → F64 → TransferRecord → TransferRecord
moved_record now total moved pct mbps rec = record rec {
  bytes_total = total;
  bytes_transferred = moved;
  progress_pct = pct;
  throughput_mbps = mbps;
  updated_at_unix_ms = now;
}

-- one round of the copying of a file
unfoldable pub note_copied : AppState → ℕ → ℕ → ℕ → ℕ → F64 → F64 → AppState
note_copied s now id total copied pct mbps = elim (HashMap.get s.records id) [
  | none ↦ s
  | some rec ↦ record s {
    records = HashMap.put s.records id (moved_record now total copied pct mbps rec);
  }
]

-- the `progress_callback` of the sender
unfoldable pub report_sent : AppState → ℕ → ℕ → ℕ → ℕ → ℕ → F64 → F64 → AppState
report_sent s now ts id total sent pct mbps =
    let event : TransferEventRecord = record (status_event ts id "progress" TransferStatus.active) {
      progress_pct = some pct;
      throughput_mbps = some mbps;
      bytes_transferred = some sent;
      bytes_total = some total;
    } in
    append_event (note_copied s now id total sent pct mbps) event

-- the end of a transfer that was received
unfoldable pub report_received : AppState → ℕ → ℕ → ℕ → ℕ → AppState
report_received s now ts id total =
    let event : TransferEventRecord = record (status_event ts id "progress" TransferStatus.active) {
      progress_pct = some hundred;
      bytes_transferred = some total;
      bytes_total = some total;
    } in
    let records = elim (HashMap.get s.records id) as (λ _. HashMap.HashMap TransferRecord) [
      | none ↦ s.records
      | some rec ↦ HashMap.put s.records id (record rec {
        bytes_total = total;
        bytes_transferred = total;
        progress_pct = hundred;
        updated_at_unix_ms = now;
      })
    ] in
    append_event (record s { records = records }) event
