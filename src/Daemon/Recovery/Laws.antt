-- ===== src/Daemon/Recovery/Laws.antt =====
-- What a start of the daemon recovers: the status that the log says last, and in the queue exactly
-- the queued transfers.
use sc_transport.Base.{
  ℕ, ◌+◌, ◌≡◌, refl, arith, Bool, false, ◌||◌, Option, none, some, List, [], ◌∷◌, ◌==◌,
  if◌then◌else◌, Bool-cases, Option-cases, inl, inr, ◌⊎◌,
}
use sc_transport.Base.HashMap
use sc_transport.Base.HashMap.{HashMap, get-put}
use sc_transport.Daemon.{
  TransferStatus, TransferRecord, TransferEventRecord, QueueEntry, AppState, or_else, is_active,
  is_queued, apply_event, queued_in,
}
use sc_transport.Daemon.Recovery.{
  insert_records, record_of, replay_event, replay, requeue, loaded_records, load_records_into_state,
}

-- The status of the last event of a transfer that has one.
unfoldable pub last_status : ℕ → List TransferEventRecord → Option TransferStatus
last_status id [] = none
last_status id (event ∷ events) = elim (last_status id events) [
  | some status ↦ some status
  | none ↦ if event.transfer_id == id then event.status else none
]

-- the status of a transfer's record
abbrev pub status_of : HashMap TransferRecord → ℕ → Option TransferStatus
status_of records id = elim (HashMap.get records id) [ none ↦ none | some rec ↦ some rec.status ]

abbrev pub awaits : HashMap TransferRecord → ℕ → Bool
awaits records id = elim (HashMap.get records id) [ none ↦ false | some rec ↦ is_queued rec.status ]

-- Each record is filed once, under its own id.
abbrev pub IsKeyed : HashMap TransferRecord → Type 0
IsKeyed [] = Unit
IsKeyed ((k, rec) ∷ records) =
    (rec.transfer_id ≡ k) × (HashMap.get records k ≡ none) × IsKeyed records

put-IsKeyed :
    (records : HashMap TransferRecord) (k : ℕ) (rec : TransferRecord)
    → rec.transfer_id ≡ k
    → IsKeyed records
    → IsKeyed (HashMap.put records k rec)
unfolding HashMap.put HashMap.get
put-IsKeyed [] k rec own h = (own, refl, tt)
put-IsKeyed ((j, r) ∷ records) k rec own (own', once, rest) = elim (Bool-cases (j == k)) [
  | inl here ↦ rw (here, HashMap.put) (own, ground (arith, once), rest)
  | inr there ↦
      rw (there, HashMap.put)
        (own', ground (arith, get-put records k j rec, once), put-IsKeyed records k rec own rest)
]

get-transfer_id :
    (records : HashMap TransferRecord) (k : ℕ) {rec : TransferRecord}
    → IsKeyed records
    → HashMap.get records k ≡ some rec
    → rec.transfer_id ≡ k
unfolding HashMap.get
get-transfer_id [] k h found = cc
get-transfer_id ((j, r) ∷ records) k {rec} (own, once, rest) found = elim (Bool-cases (j == k)) [
  | inl here ↦ ground (arith, own)
  | inr there ↦ get-transfer_id records k {rec = rec} rest (ground (arith, there))
]

queued_in-requeue :
    (records : HashMap TransferRecord) (seq : ℕ) (queue : List QueueEntry) (id : ℕ)
    → IsKeyed records
    → queued_in (requeue records seq queue).1 id ≡ (queued_in queue id || awaits records id)
unfolding requeue queued_in HashMap.get
queued_in-requeue [] seq queue id h = ground arith
queued_in-requeue ((k, rec) ∷ records) seq queue id (own, once, rest) =
    elim (Bool-cases (is_queued rec.status)) [
      | inl waits ↦ ground (
        arith,
        own,
        once,
        waits,
        queued_in-requeue records (seq + 1)
            (record { priority = rec.priority; seq = seq + 1; transfer_id = rec.transfer_id }
              ∷ queue)
            id rest,
      )
      | inr other ↦ ground (arith, once, other, queued_in-requeue records seq queue id rest)
    ]

insert_records-IsKeyed :
    (list : List TransferRecord) (records : HashMap TransferRecord)
    → IsKeyed records
    → IsKeyed (insert_records list records)
unfolding insert_records
insert_records-IsKeyed [] records h = h
insert_records-IsKeyed (rec ∷ list) records h = elim (Bool-cases (is_active rec.status)) [
  | inl runs ↦
      rw (runs, insert_records)
        (insert_records-IsKeyed list _ (put-IsKeyed records rec.transfer_id _ refl h))
  | inr other ↦
      rw (other, insert_records)
        (insert_records-IsKeyed list _ (put-IsKeyed records rec.transfer_id _ refl h))
]

replay_event-IsKeyed :
    (event : TransferEventRecord) (records : HashMap TransferRecord)
    → IsKeyed records
    → IsKeyed (replay_event event records)
unfolding replay_event apply_event record_of
replay_event-IsKeyed event records h = elim (Option-cases (HashMap.get records event.transfer_id)) [
  | inl new ↦ put-IsKeyed records event.transfer_id _ (rw new refl) h
  | inr (rec, old) ↦
      put-IsKeyed records event.transfer_id _
        (rw old (get-transfer_id records event.transfer_id h old)) h
]

replay-IsKeyed :
    (events : List TransferEventRecord) (records : HashMap TransferRecord)
    → IsKeyed records
    → IsKeyed (replay events records)
unfolding replay
replay-IsKeyed [] records h = h
replay-IsKeyed (event ∷ events) records h =
    replay-IsKeyed events (replay_event event records) (replay_event-IsKeyed event records h)

status-apply_event :
    (rec : TransferRecord) (event : TransferEventRecord)
    → (apply_event rec event).status ≡ or_else event.status rec.status
unfolding apply_event
status-apply_event rec event = refl

status-record_of :
    (event : TransferEventRecord)
    → (record_of event).status ≡ or_else event.status TransferStatus.queued
unfolding record_of
status-record_of event = refl

-- an event sets the status of its transfer, if it has one, and no other's
status_of-replay_event :
    (event : TransferEventRecord) (records : HashMap TransferRecord) (id : ℕ)
    → status_of (replay_event event records) id ≡ (
        if event.transfer_id == id
        then some (or_else event.status (or_else (status_of records id) TransferStatus.queued))
        else status_of records id)
unfolding replay_event
status_of-replay_event event records id =
    let entry = or_else (HashMap.get records event.transfer_id) (record_of event) in
    ground (
      arith,
      get-put records event.transfer_id id (apply_event entry event),
      status-apply_event entry event,
      status-record_of event,
    )

-- the status after the whole log
status_of-replay :
    (events : List TransferEventRecord) (records : HashMap TransferRecord) (id : ℕ)
    {status : TransferStatus}
    → (last_status id events ≡ some status)
      ⊎ ((last_status id events ≡ none) × (status_of records id ≡ some status))
    → status_of (replay events records) id ≡ some status
unfolding replay last_status
status_of-replay [] records id h = ground arith
status_of-replay (event ∷ events) records id {status = status} h =
    status_of-replay events (replay_event event records) id {status = status}
      (ground (arith, status_of-replay_event event records id, h))

pub loaded_records-IsKeyed : (s : AppState) → IsKeyed s.records → IsKeyed (loaded_records s)
unfolding loaded_records
loaded_records-IsKeyed s h =
    replay-IsKeyed s.events _ (insert_records-IsKeyed (or_else s.state_file []) s.records h)

-- After a start, a transfer has an entry in the queue exactly when its record is queued, if the
-- records were filed once each, under their own ids, before (as no records at all are).
pub queue-load_records_into_state :
    (s : AppState) (id : ℕ)
    → IsKeyed s.records
    → queued_in (load_records_into_state s).queue id ≡ awaits (load_records_into_state s).records id
unfolding load_records_into_state queued_in
queue-load_records_into_state s id h =
    queued_in-requeue (loaded_records s) s.sequence [] id (loaded_records-IsKeyed s h)

-- After a start, a transfer that has a status in the log has the last of them, whatever the state
-- file says.
pub status-load_records_into_state :
    (s : AppState) (id : ℕ) {status : TransferStatus}
    → last_status id s.events ≡ some status
    → status_of (load_records_into_state s).records id ≡ some status
unfolding load_records_into_state loaded_records
status-load_records_into_state s id h = status_of-replay s.events _ id (inl h)
