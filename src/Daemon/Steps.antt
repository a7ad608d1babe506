-- ===== src/Daemon/Steps.antt =====
-- The daemon as a whole: what its handlers, its scheduler and its jobs do, one after the other in any
-- order, from a start on.
use sc_transport.Base.{
  ℕ, ◌+◌, ◌≡◌, arith, String, true, some, List, [], ◌∷◌, ◌==◌, Bool-cases, inl, inr,
}
use sc_transport.Base.HashMap
use sc_transport.Base.HashMap.{HashMap}
use sc_transport.Base.HashSet.{contains}
use sc_transport.Daemon.{F64, TransferRecord, QueueEntry, AppState, is_queued}
use sc_transport.Daemon.Handlers.{submit_transfer, cancel_transfer, update_priority}
use sc_transport.Daemon.Scheduler.{
  next_transfer, acquire, start_job, complete_job, fail_job, stop_job,
}
use sc_transport.Daemon.Recovery.{requeue, loaded_records, load_records_into_state}
use sc_transport.Daemon.Recovery.Laws.{IsKeyed, loaded_records-IsKeyed}
use sc_transport.Daemon.Planned.{
  waits_at, IsPlanned, submit_transfer-IsPlanned, cancel_transfer-IsPlanned,
  update_priority-IsPlanned,
}
use sc_transport.Daemon.Planned.Jobs.{
  take_next, without, next_transfer-IsPlanned, acquire-IsPlanned, start_job-IsPlanned,
  complete_job-IsPlanned, fail_job-IsPlanned, stop_job-IsPlanned,
}
use sc_transport.Daemon.Progress.{note_total, note_copied, report_sent, report_received}
use sc_transport.Daemon.Planned.Progress.{
  note_total-IsPlanned, note_copied-IsPlanned, report_sent-IsPlanned, report_received-IsPlanned,
}

-- The state, and the transfers that the scheduler has taken from the queue and whose jobs have not
-- marked them as active.
pub record System : Type 0 where
  pub app : AppState
  pub taken : List ℕ

-- One step of the daemon.
pub data Step (s : System) : System → Type 0 where
  submit :
      (now now' ts id : ℕ) (source destination : String) (priority : ℕ)
      → Step s (record s { app = submit_transfer s.app now now' ts id source destination priority })
  cancel :
      (now ts id : ℕ) (app : AppState)
      → cancel_transfer s.app now ts id ≡ some app
      → Step s (record s { app = app })
  reprioritise :
      (now ts id priority : ℕ) (app : AppState)
      → update_priority s.app now ts id priority ≡ some app
      → Step s (record s { app = app })
  schedule :
      Step s (record {
        app = (next_transfer s.app).0;
        taken = take_next (next_transfer s.app).1 s.taken;
      })
  permit : (app : AppState) → acquire s.app ≡ some app → Step s (record s { app = app })
  start :
      (now ts id : ℕ)
      → contains s.taken id ≡ true
      → Step s (record { app = (start_job s.app now ts id).0; taken = without s.taken id })
  total : (id size : ℕ) → Step s (record s { app = note_total s.app id size })
  copied :
      (now id size moved : ℕ) (pct mbps : F64)
      → Step s (record s { app = note_copied s.app now id size moved pct mbps })
  sent :
      (now ts id size moved : ℕ) (pct mbps : F64)
      → Step s (record s { app = report_sent s.app now ts id size moved pct mbps })
  received : (now ts id size : ℕ) → Step s (record s { app = report_received s.app now ts id size })
  complete : (now ts id : ℕ) → Step s (record s { app = complete_job s.app now ts id })
  fail :
      (now ts id : ℕ) (message : String)
      → Step s (record s { app = fail_job s.app now ts id message })
  stop : (id : ℕ) → Step s (record s { app = stop_job s.app id })

pub data Steps (s : System) : System → Type 0 where
  done : Steps s s
  more : (t u : System) → Steps s t → Step t u → Steps s u

-- a start of the daemon
abbrev pub started : AppState → System
started s = record { app = load_records_into_state s; taken = [] }

Step-IsPlanned : (s t : System) → Step s t → IsPlanned s.app s.taken → IsPlanned t.app t.taken
Step-IsPlanned s _ (Step.submit now now' ts id source destination priority) h =
    submit_transfer-IsPlanned s.app now now' ts id source destination priority s.taken h
Step-IsPlanned s _ (Step.cancel now ts id app ran) h =
    cancel_transfer-IsPlanned s.app now ts id s.taken ran h
Step-IsPlanned s _ (Step.reprioritise now ts id priority app ran) h =
    update_priority-IsPlanned s.app now ts id priority s.taken ran h
Step-IsPlanned s _ Step.schedule h = next_transfer-IsPlanned s.app s.taken h
Step-IsPlanned s _ (Step.permit app ran) h = acquire-IsPlanned s.app s.taken ran h
Step-IsPlanned s _ (Step.start now ts id there) h = start_job-IsPlanned s.app now ts id s.taken h
Step-IsPlanned s _ (Step.total id size) h = note_total-IsPlanned s.app id size s.taken h
Step-IsPlanned s _ (Step.copied now id size moved pct mbps) h =
    note_copied-IsPlanned s.app now id size moved pct mbps s.taken h
Step-IsPlanned s _ (Step.sent now ts id size moved pct mbps) h =
    report_sent-IsPlanned s.app now ts id size moved pct mbps s.taken h
Step-IsPlanned s _ (Step.received now ts id size) h =
    report_received-IsPlanned s.app now ts id size s.taken h
Step-IsPlanned s _ (Step.complete now ts id) h = complete_job-IsPlanned s.app now ts id s.taken h
Step-IsPlanned s _ (Step.fail now ts id message) h =
    fail_job-IsPlanned s.app now ts id message s.taken h
Step-IsPlanned s _ (Step.stop id) h = stop_job-IsPlanned s.app id s.taken h

requeue-keeps :
    (records : HashMap TransferRecord) (seq : ℕ) (queue : List QueueEntry) (id priority : ℕ)
    → waits_at queue id priority ≡ true
    → waits_at (requeue records seq queue).1 id priority ≡ true
unfolding requeue waits_at
requeue-keeps [] seq queue id priority h = h
requeue-keeps ((k, rec) ∷ records) seq queue id priority h =
    elim (Bool-cases (is_queued rec.status)) [
      | inl waits ↦ rw waits (requeue-keeps records (seq + 1) _ id priority (ground (arith, h)))
      | inr idle ↦ rw idle (requeue-keeps records seq queue id priority h)
    ]

requeue-waits_at :
    (records : HashMap TransferRecord) (seq : ℕ) (queue : List QueueEntry) (id : ℕ)
    {rec : TransferRecord}
    → IsKeyed records
    → HashMap.get records id ≡ some rec
    → is_queued rec.status ≡ true
    → waits_at (requeue records seq queue).1 id rec.priority ≡ true
unfolding requeue waits_at HashMap.get
requeue-waits_at [] seq queue id h found waits = cc
requeue-waits_at ((k, r) ∷ records) seq queue id {rec = rec} (own, once, rest) found waits =
    elim (Bool-cases (k == id)) [
      | inl here ↦
          let e : r ≡ rec = ground (arith, here, found) in
          let w : is_queued r.status ≡ true = rw e waits in
          rw w (requeue-keeps records (seq + 1) _ id rec.priority (ground (arith, own, here, e)))
      | inr there ↦ elim (Bool-cases (is_queued r.status)) [
        | inl w ↦ rw w (
            requeue-waits_at records (seq + 1) _ id {rec = rec} rest (ground (arith, there, found))
              waits)
        | inr idle ↦ rw idle (
            requeue-waits_at records seq queue id {rec = rec} rest (ground (arith, there, found))
              waits)
      ]
    ]

started-IsPlanned : (s : AppState) → IsKeyed s.records → IsPlanned (started s).app (started s).taken
unfolding load_records_into_state
started-IsPlanned s h id rec found waits = ground (
  arith,
  requeue-waits_at (loaded_records s) s.sequence [] id {rec = rec} (loaded_records-IsKeyed s h)
      found waits,
)

-- From any start of the daemon, if its records were filed once each under their own ids before it
-- read its files (as no records at all are): whatever its handlers, its scheduler and its jobs
-- then do, in any order, every record that is queued has an entry in the queue with its present
-- priority, or was taken by the scheduler to be started.
pub reachable-IsPlanned :
    (s : AppState) (t : System) → IsKeyed s.records → Steps (started s) t → IsPlanned t.app t.taken
reachable-IsPlanned s t keyed Steps.done = started-IsPlanned s keyed
reachable-IsPlanned s t keyed (Steps.more m _ steps step) =
    Step-IsPlanned m t step (reachable-IsPlanned s m keyed steps)
