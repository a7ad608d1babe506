-- ===== src/Daemon/Recovery.antt =====
-- `load_records_into_state` of crates/sct-daemon/src/main.rs: what the daemon makes of its files when
-- it starts.

pub mod Laws
use sc_transport.Base.{ℕ, ◌+◌, Option, none, some, List, [], ◌∷◌, if◌then◌else◌}
use sc_transport.Base.HashMap
use sc_transport.Base.HashMap.{HashMap}
use sc_transport.Daemon.{
  TransferStatus, TransferRecord, TransferEventRecord, QueueEntry, AppState, or_else, is_active,
  is_queued, apply_event,
}

-- The records of the state file, the active ones queued.
unfoldable pub insert_records :
    List TransferRecord → HashMap TransferRecord → HashMap TransferRecord
insert_records [] records = records
insert_records (rec ∷ list) records =
    let loaded =
      if is_active rec.status then record rec { status = TransferStatus.queued } else rec in
    insert_records list (HashMap.put records rec.transfer_id loaded)

-- the record that `or_insert_with` makes of an event
unfoldable pub record_of : TransferEventRecord → TransferRecord
record_of event = record {
  transfer_id = event.transfer_id;
  source = or_else event.source "";
  destination = or_else event.destination "";
  priority = or_else event.priority 5;
  status = or_else event.status TransferStatus.queued;
  progress_pct = or_else event.progress_pct 0;
  throughput_mbps = or_else event.throughput_mbps 0;
  bytes_transferred = or_else event.bytes_transferred 0;
  bytes_total = or_else event.bytes_total 0;
  error = event.error;
  created_at_unix_ms = event.ts_unix_ms;
  updated_at_unix_ms = event.ts_unix_ms;
  attempts = 0;
}

unfoldable pub replay_event : TransferEventRecord → HashMap TransferRecord → HashMap TransferRecord
replay_event event records =
    let entry = or_else (HashMap.get records event.transfer_id) (record_of event) in
    HashMap.put records event.transfer_id (apply_event entry event)

unfoldable pub replay : List TransferEventRecord → HashMap TransferRecord → HashMap TransferRecord
replay [] records = records
replay (event ∷ events) records = replay events (replay_event event records)

-- The queue of all the queued records, and the last sequence number.
unfoldable pub requeue : HashMap TransferRecord → ℕ → List QueueEntry → ℕ × List QueueEntry
requeue [] seq queue = (seq, queue)
requeue ((_, rec) ∷ records) seq queue =
    let entry : QueueEntry = record {
      priority = rec.priority;
      seq = seq + 1;
      transfer_id = rec.transfer_id;
    } in
    if is_queued rec.status
    then requeue records (seq + 1) (entry ∷ queue)
    else requeue records seq queue

-- the records after both files are read
unfoldable pub loaded_records : AppState → HashMap TransferRecord
loaded_records s = replay s.events (insert_records (or_else s.state_file []) s.records)

unfoldable pub load_records_into_state : AppState → AppState
load_records_into_state s =
    let (seq, queue) = requeue (loaded_records s) s.sequence [] in
    record s { records = loaded_records s; sequence = seq; queue = queue }
