-- ===== src/Tests/Daemon.antt =====
-- The daemon at work.
use sc_transport.Base.{take, Bool}
use sc_transport.Base.Count.{count}
use sc_transport.Daemon.{is_active}
use sc_transport.Daemon.Access.{values, list_transfers}
use sc_transport.Daemon.Access.Listing.{IsSorted, matching, list_transfers-IsSorted}
use sc_transport.Base.{ℕ, ◌≡◌, refl, true, false, Option, none, some, List, [], ◌∷◌}
use sc_transport.Daemon.{
  TransferStatus, TransferRecord, TransferEventRecord, QueueEntry, AppState, status_event,
  queued_in, enqueue_transfer, append_event, persist_records,
}
use sc_transport.Daemon.Handlers.{submit_transfer, submitted_record}
use sc_transport.Base.{◌≤◌}
use sc_transport.Base.HashSet.{contains}
use sc_transport.Daemon.Scheduler.{before, pop, next_transfer}
use sc_transport.Daemon.Planned.Jobs.{take_next}
use sc_transport.Base.HashMap
use sc_transport.Daemon.Recovery.{
  insert_records, replay, requeue, loaded_records, load_records_into_state,
}
use sc_transport.Daemon.Recovery.Laws.{
  last_status, status_of, awaits, queue-load_records_into_state, status-load_records_into_state,
}
use sc_transport.Daemon.Planned.{IsPlanned}
use sc_transport.Daemon.Order.{next_transfer_most_urgent}
use sc_transport.Daemon.Steps.{System, Step, Steps, started, reachable-IsPlanned}

-- the daemon before it reads its files
abbrev with_files : Option (List TransferRecord) → List TransferEventRecord → AppState
with_files list events = record {
  queue = [];
  records = [];
  permits = 4;
  sequence = 0;
  state_file = list;
  events = events;
  cancels = [];
  state_writable = true;
  events_writable = true;
}

abbrev running : TransferRecord
running = record {
  transfer_id = 7;
  source = "file:///data/a";
  destination = "sct://10.0.0.2:7272";
  priority = 5;
  status = TransferStatus.active;
  progress_pct = 0;
  throughput_mbps = 0;
  bytes_transferred = 0;
  bytes_total = 100;
  error = none;
  created_at_unix_ms = 1;
  updated_at_unix_ms = 2;
  attempts = 1;
}

-- A transfer was submitted and started, and the daemon stopped.
abbrev crashed : AppState
crashed = with_files (some (running ∷ [])) (
    status_event 1 7 "submitted" TransferStatus.queued
    ∷ status_event 2 7 "started" TransferStatus.active
    ∷ [])

last : last_status 7 crashed.events ≡ some TransferStatus.active
unfolding last_status
last = refl

status-load_records_into_state_example :
    status_of (load_records_into_state crashed).records 7 ≡ some TransferStatus.active
status-load_records_into_state_example = status-load_records_into_state crashed 7 last

-- without the log, the transfer is in the queue
abbrev snapshot_only : AppState
snapshot_only = with_files (some (running ∷ [])) []

queue-load_records_into_state_example :
    queued_in (load_records_into_state snapshot_only).queue 7
    ≡ awaits (load_records_into_state snapshot_only).records 7
queue-load_records_into_state_example = queue-load_records_into_state snapshot_only 7 tt

snapshot_is_requeued : queued_in (load_records_into_state snapshot_only).queue 7 ≡ true
unfolding load_records_into_state queued_in loaded_records insert_records replay requeue HashMap.put
snapshot_is_requeued = refl

-- A second transfer is submitted, and the scheduler takes one.
abbrev submitted : System
submitted = record (started snapshot_only) {
  app = submit_transfer (started snapshot_only).app 3 3 4 8 "file:///data/b" "b" 1;
}

abbrev scheduled : System
scheduled = record {
  app = (next_transfer submitted.app).0;
  taken = take_next (next_transfer submitted.app).1 submitted.taken;
}

reachable-IsPlanned_example : IsPlanned scheduled.app scheduled.taken
reachable-IsPlanned_example = reachable-IsPlanned snapshot_only scheduled tt (
    Steps.more submitted scheduled
      (Steps.more (started snapshot_only) submitted Steps.done
        (Step.submit 3 3 4 8 "file:///data/b" "b" 1))
      Step.schedule)

abbrev entry_of : ℕ → ℕ → ℕ → QueueEntry
entry_of priority seq id = record { priority = priority; seq = seq; transfer_id = id }

popped :
    pop (entry_of 5 1 7 ∷ entry_of 1 2 8 ∷ entry_of 1 3 9 ∷ [])
    ≡ some (entry_of 1 3 9, entry_of 5 1 7 ∷ entry_of 1 2 8 ∷ [])
unfolding pop before
popped = refl

-- the second transfer is taken, before the one that waits at the priority 5
taken_first : next_transfer submitted.app ≡ ((next_transfer submitted.app).0, some 8)
unfolding load_records_into_state loaded_records insert_records replay requeue HashMap.put
    HashMap.get submit_transfer enqueue_transfer append_event persist_records next_transfer pop
    before submitted_record
taken_first = refl

abbrev urgent : TransferRecord
urgent = submitted_record 3 3 8 "file:///data/b" "b" 1

found_urgent : HashMap.get submitted.app.records 8 ≡ some urgent
unfolding load_records_into_state loaded_records insert_records replay requeue HashMap.put
    HashMap.get submit_transfer enqueue_transfer append_event persist_records
found_urgent = refl

abbrev waiting : TransferRecord
waiting = record running { status = TransferStatus.queued }

found_waiting : HashMap.get submitted.app.records 7 ≡ some waiting
unfolding load_records_into_state loaded_records insert_records replay requeue HashMap.put
    HashMap.get submit_transfer enqueue_transfer append_event persist_records
found_waiting = refl

none_taken : contains submitted.taken 7 ≡ false
unfolding contains
none_taken = refl

next_transfer_most_urgent_example : urgent.priority ≤ waiting.priority
next_transfer_most_urgent_example =
    next_transfer_most_urgent snapshot_only submitted tt
      (Steps.more (started snapshot_only) submitted Steps.done
        (Step.submit 3 3 4 8 "file:///data/b" "b" 1))
      taken_first found_urgent 7 found_waiting refl none_taken

list_transfers-IsSorted_example :
    (rows : List TransferRecord) × (list_transfers crashed (some is_active) (some 1) ≡ take 1 rows)
    × IsSorted rows
    × ((f : TransferRecord → Bool)
        → count f rows ≡ count f (matching is_active (values crashed.records)))
list_transfers-IsSorted_example = list_transfers-IsSorted is_active crashed 1
