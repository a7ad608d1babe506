-- ===== src/Daemon/Planned.antt =====
-- No queued transfer is lost: it has an entry in the queue with its present priority, or the
-- scheduler has taken it and is about to start it (`taken`). Here: the handlers.
pub mod Jobs
pub mod Progress
use sc_transport.Base.{
  ℕ, ◌+◌, ◌≡◌, refl, arith, String, Bool, true, false, not, ◌&&◌, ◌||◌, Option, none, some, List,
  [], ◌∷◌, ◌==◌, if◌then◌else◌, Bool-cases, Option-cases, inl, inr, ◌⊎◌, min, max,
}
use sc_transport.Base.HashMap
use sc_transport.Base.HashSet.{contains}
use sc_transport.Base.HashMap.{HashMap, get-put}
use sc_transport.Daemon.{
  TransferStatus, TransferRecord, TransferEventRecord, QueueEntry, AppState, is_active, is_queued,
  is_cancelled, watch_channel, clamp_priority, append_event, persist_records, enqueue_transfer,
}
use sc_transport.Daemon.Handlers.{
  submitted_record, submit_transfer, cancel_transfer, update_priority,
}
use sc_transport.Daemon.Scheduler.{
  before, pop, next_transfer, acquire, start_job, complete_job, fail_job, stop_job,
}

-- whether the queue has an entry for a transfer at a priority
unfoldable pub waits_at : List QueueEntry → ℕ → ℕ → Bool
waits_at [] id priority = false
waits_at (e ∷ queue) id priority =
    (e.transfer_id == id && e.priority == priority) || waits_at queue id priority

abbrev pub Planned : HashMap TransferRecord → List QueueEntry → List ℕ → ℕ → Type 0
Planned records queue taken id =
    (rec : TransferRecord)
    → HashMap.get records id ≡ some rec
    → is_queued rec.status ≡ true
    → (waits_at queue id rec.priority || contains taken id) ≡ true

abbrev pub IsPlanned : AppState → List ℕ → Type 0
IsPlanned s taken = (id : ℕ) → Planned s.records s.queue taken id

pub some_injective {ℓ} : {A : Type ℓ} {a b : A} → some a ≡ some b → a ≡ b
some_injective h = cc

-- What is written to the files changes neither the records nor the queue.
pub append_event_keeps :
    (s : AppState) (event : TransferEventRecord)
    → ((append_event s event).records ≡ s.records) × ((append_event s event).queue ≡ s.queue)
unfolding append_event
append_event_keeps s event = ground arith

pub persist_records_keeps :
    (s : AppState)
    → ((persist_records s).records ≡ s.records) × ((persist_records s).queue ≡ s.queue)
unfolding persist_records
persist_records_keeps s = ground arith

saved_keeps :
    (s : AppState) (event : TransferEventRecord)
    → ((persist_records (append_event s event)).records ≡ s.records)
      × ((persist_records (append_event s event)).queue ≡ s.queue)
saved_keeps s event =
    let (r, q) = append_event_keeps s event in
    let (r', q') = persist_records_keeps (append_event s event) in
    (rw (r', r) refl, rw (q', q) refl)

pub saved-IsPlanned :
    (s : AppState) (event : TransferEventRecord) (taken : List ℕ)
    → IsPlanned s taken
    → IsPlanned (persist_records (append_event s event)) taken
saved-IsPlanned s event taken h id rec found waits =
    let (r, q) = saved_keeps s event in rw q (h id rec (rw r at found) waits)

-- A record that is changed and queued at its priority is planned, and so are the others.
enqueue_transfer-IsPlanned :
    (s : AppState) (id priority : ℕ) (rec : TransferRecord) (taken : List ℕ)
    → rec.priority ≡ clamp_priority priority
    → ((j : ℕ) → Planned s.records s.queue taken j)
    → IsPlanned
        (enqueue_transfer
          (record s { records = HashMap.put s.records id rec })
          id
          (clamp_priority priority))
        taken
unfolding enqueue_transfer waits_at
enqueue_transfer-IsPlanned s id priority rec taken at_priority h j rec' found waits =
    elim (Bool-cases (id == j)) [
      | inl here ↦ ground (arith, get-put s.records id j rec, here, found, at_priority)
      | inr there ↦
          let old = h j rec' (ground (arith, get-put s.records id j rec, there, found)) waits in
          ground (arith, old)
    ]

-- A record that is not queued needs no plan.
pub put-IsPlanned :
    (s : AppState) (id : ℕ) (rec : TransferRecord) (taken : List ℕ)
    → is_queued rec.status ≡ false
    → IsPlanned s taken
    → (j : ℕ) → Planned (HashMap.put s.records id rec) s.queue taken j
put-IsPlanned s id rec taken idle h j rec' found waits = elim (Bool-cases (id == j)) [
  | inl here ↦ absurd (ground (arith, get-put s.records id j rec, here, found, idle, waits))
  | inr there ↦ h j rec' (ground (arith, get-put s.records id j rec, there, found)) waits
]

-- The handlers keep every queued transfer planned.
pub submit_transfer-IsPlanned :
    (s : AppState) (now now' ts id : ℕ) (source destination : String) (priority : ℕ)
    (taken : List ℕ)
    → IsPlanned s taken
    → IsPlanned (submit_transfer s now now' ts id source destination priority) taken
unfolding submit_transfer submitted_record
submit_transfer-IsPlanned s now now' ts id source destination priority taken h =
    saved-IsPlanned _ _ taken (
      enqueue_transfer-IsPlanned (record s { cancels = HashMap.put s.cancels id watch_channel }) id
        priority (submitted_record now now' id source destination priority) taken refl h)

pub cancel_transfer-IsPlanned :
    (s : AppState) (now ts id : ℕ) (taken : List ℕ) {s' : AppState}
    → cancel_transfer s now ts id ≡ some s'
    → IsPlanned s taken
    → IsPlanned s' taken
unfolding cancel_transfer
cancel_transfer-IsPlanned s now ts id taken {s' = s'} ran h =
    elim (Option-cases (HashMap.get s.records id)) [
      | inl missing ↦ absurd (ground (arith, missing, ran))
      | inr (rec, there) ↦
          rw (← some_injective (rw (there, cancel_transfer) at ran))
            (saved-IsPlanned _ _ taken (put-IsPlanned s id _ taken refl h))
    ]

pub update_priority-IsPlanned :
    (s : AppState) (now ts id priority : ℕ) (taken : List ℕ) {s' : AppState}
    → update_priority s now ts id priority ≡ some s'
    → IsPlanned s taken
    → IsPlanned s' taken
unfolding update_priority
update_priority-IsPlanned s now ts id priority taken {s' = s'} ran h =
    elim (Option-cases (HashMap.get s.records id)) [
      | inl missing ↦ absurd (ground (arith, missing, ran))
      | inr (rec, there) ↦ elim (Bool-cases (is_active rec.status)) [
        | inl runs ↦
            rw (← some_injective (rw (there, runs, update_priority) at ran))
              (saved-IsPlanned _ _ taken (put-IsPlanned s id _ taken (ground (arith, runs)) h))
        | inr idle ↦
            rw (← some_injective (rw (there, idle, update_priority) at ran))
              (saved-IsPlanned _ _ taken (enqueue_transfer-IsPlanned s id priority _ taken refl h))
      ]
    ]
