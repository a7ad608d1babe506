-- ===== src/Daemon/Planned/Jobs.antt =====
-- The scheduler and its jobs keep every queued transfer planned.
use sc_transport.Base.{
  ℕ, ◌≡◌, refl, arith, String, false, Option, none, some, List, [], ◌∷◌, ◌==◌, if◌then◌else◌,
  Bool-cases, Option-cases, inl, inr,
}
use sc_transport.Base.HashMap
use sc_transport.Base.HashMap.{HashMap, get-put}
use sc_transport.Base.HashSet.{contains}
use sc_transport.Daemon.{TransferRecord, QueueEntry, AppState, is_queued, is_cancelled}
use sc_transport.Daemon.Scheduler.{
  pop, next_transfer, acquire, active_record, log_start, drop_job, start_job, complete_job,
  fail_job, stop_job,
}
use sc_transport.Daemon.Planned.{
  waits_at, IsPlanned, saved-IsPlanned, put-IsPlanned, persist_records_keeps, some_injective,
}

-- the transfers that were taken, with the one that was taken now
abbrev pub take_next : Option ℕ → List ℕ → List ℕ
take_next none taken = taken
take_next (some id) taken = id ∷ taken

-- those that are not started
unfoldable pub without : List ℕ → ℕ → List ℕ
without [] id = []
without (t ∷ taken) id = let rest = without taken id in if t == id then rest else t ∷ rest

contains-without :
    (taken : List ℕ) (id j : ℕ)
    → (id == j) ≡ false
    → contains (without taken id) j ≡ contains taken j
unfolding contains without
contains-without [] id j other = refl
contains-without (t ∷ taken) id j other = ground (arith, contains-without taken id j other)

pop_empty : (queue : List QueueEntry) → pop queue ≡ none → queue ≡ []
unfolding pop
pop_empty [] h = refl
pop_empty (e ∷ queue) h = ground (arith, h)

-- Popping splits the queue.
pub waits_at-pop :
    (queue : List QueueEntry) {e : QueueEntry} {rest : List QueueEntry} (id priority : ℕ)
    → pop queue ≡ some (e, rest)
    → waits_at queue id priority ≡ waits_at (e ∷ rest) id priority
unfolding pop waits_at
waits_at-pop [] id priority h = cc
waits_at-pop (f ∷ queue) {e = e} {rest = rest} id priority h = elim (Option-cases (pop queue)) [
  | inl done ↦ ground (arith, done, h, pop_empty queue done)
  | inr ((g, others), more) ↦ ground (arith, more, h, waits_at-pop queue id priority more)
]

pub next_transfer-IsPlanned :
    (s : AppState) (taken : List ℕ)
    → IsPlanned s taken
    → IsPlanned (next_transfer s).0 (take_next (next_transfer s).1 taken)
unfolding next_transfer waits_at contains
next_transfer-IsPlanned s taken h j rec found waits = elim (Option-cases (pop s.queue)) [
  | inl empty ↦ ground (arith, empty, h j rec)
  | inr ((e, rest), more) ↦ elim (Option-cases (HashMap.get s.records e.transfer_id)) [
    | inl gone ↦ ground (arith, more, gone, h j rec, waits_at-pop s.queue j rec.priority more)
    | inr (r, there) ↦
        ground (arith, more, there, h j rec, waits_at-pop s.queue j rec.priority more)
  ]
]

pub acquire-IsPlanned :
    (s : AppState) (taken : List ℕ) {s' : AppState}
    → acquire s ≡ some s'
    → IsPlanned s taken
    → IsPlanned s' taken
unfolding acquire
acquire-IsPlanned s taken {s' = s'} ran h = elim (Bool-cases (s.permits == 0)) [
  | inl full ↦ absurd (ground (arith, full, ran))
  | inr free ↦ rw (← some_injective (rw (free, acquire) at ran)) h
]

pub stop_job-IsPlanned :
    (s : AppState) (id : ℕ) (taken : List ℕ) → IsPlanned s taken → IsPlanned (stop_job s id) taken
unfolding stop_job drop_job
stop_job-IsPlanned s id taken h j rec found waits =
    let (r, q) = persist_records_keeps s in rw q (h j rec (rw r at found) waits)

pub complete_job-IsPlanned :
    (s : AppState) (now ts id : ℕ) (taken : List ℕ)
    → IsPlanned s taken
    → IsPlanned (complete_job s now ts id) taken
unfolding complete_job drop_job
complete_job-IsPlanned s now ts id taken h = elim (Option-cases (HashMap.get s.records id)) [
  | inl gone ↦ rw gone (saved-IsPlanned s _ taken h)
  | inr (rec, there) ↦ elim (Bool-cases (is_cancelled rec.status)) [
    | inl ended ↦ rw (there, ended) (saved-IsPlanned s _ taken h)
    | inr runs ↦ rw (there, runs) (saved-IsPlanned _ _ taken (put-IsPlanned s id _ taken refl h))
  ]
]

pub fail_job-IsPlanned :
    (s : AppState) (now ts id : ℕ) (message : String) (taken : List ℕ)
    → IsPlanned s taken
    → IsPlanned (fail_job s now ts id message) taken
unfolding fail_job drop_job
fail_job-IsPlanned s now ts id message taken h = elim (Option-cases (HashMap.get s.records id)) [
  | inl gone ↦ rw gone (saved-IsPlanned s _ taken h)
  | inr (rec, there) ↦ rw there (saved-IsPlanned _ _ taken (put-IsPlanned s id _ taken refl h))
]

-- A transfer that is not queued need not be among those that were taken.
without-IsPlanned :
    (s : AppState) (taken : List ℕ) (id : ℕ)
    → ((rec : TransferRecord) → HashMap.get s.records id ≡ some rec → is_queued rec.status ≡ false)
    → IsPlanned s taken
    → IsPlanned s (without taken id)
without-IsPlanned s taken id idle h j rec found waits = elim (Bool-cases (id == j)) [
  | inl here ↦
      let e : id ≡ j = ground (arith, here) in absurd (ground (arith, idle rec (rw e found), waits))
  | inr there ↦ ground (arith, h j rec found waits, contains-without taken id j there)
]

log_start-IsPlanned :
    (s : AppState) (ts id : ℕ) (taken : List ℕ)
    → IsPlanned s taken
    → IsPlanned (log_start s ts id) taken
unfolding log_start
log_start-IsPlanned s ts id taken h = saved-IsPlanned s _ taken h

pub start_job-IsPlanned :
    (s : AppState) (now ts id : ℕ) (taken : List ℕ)
    → IsPlanned s taken
    → IsPlanned (start_job s now ts id).0 (without taken id)
unfolding start_job
start_job-IsPlanned s now ts id taken h = elim (Option-cases (HashMap.get s.records id)) [
  | inl gone ↦
      rw (start_job, gone)
        (log_start-IsPlanned s ts id (without taken id)
          (without-IsPlanned s taken id (λ rec found. ground (arith, gone, found)) h))
  | inr (rec, there) ↦ elim (Bool-cases (is_cancelled rec.status)) [
    | inl ended ↦
        rw (start_job, there, ended)
          (without-IsPlanned s taken id (λ r found. ground (arith, there, found, ended)) h)
    | inr runs ↦
        let marked = HashMap.put s.records id (active_record now rec) in
        rw (start_job, there, runs)
          (log_start-IsPlanned (record s { records = marked }) ts id (without taken id)
            (without-IsPlanned (record s { records = marked }) taken id
              (λ r found. ground (arith, get-put s.records id id (active_record now rec), found))
              (put-IsPlanned s id (active_record now rec) taken refl h)))
  ]
]
