-- ===== src/Daemon/Order.antt =====
-- The order in which the scheduler of crates/sct-daemon/src/main.rs takes transfers from the queue.
use sc_transport.Base.{
  ℕ, ◌≤◌, ◌<◌, ◌≡◌, arith, true, false, ◌&&◌, some, List, [], ◌∷◌, ◌==◌, Bool-cases, Option-cases,
  inl, inr, ◌⊎◌,
}
use sc_transport.Base.HashMap
use sc_transport.Base.HashSet.{contains}
use sc_transport.Daemon.{TransferRecord, QueueEntry, AppState, is_queued}
use sc_transport.Daemon.Scheduler.{before, pop, next_transfer}
use sc_transport.Daemon.Planned.{waits_at}
use sc_transport.Daemon.Planned.Jobs.{waits_at-pop}
use sc_transport.Daemon.Recovery.Laws.{IsKeyed}
use sc_transport.Daemon.Steps.{System, Steps, started, reachable-IsPlanned}

-- `f` has a greater priority number than `e`, or the same one and no later sequence number.
abbrev IsAfter : QueueEntry → QueueEntry → Type 0
IsAfter e f = (e.priority < f.priority) ⊎ ((e.priority ≡ f.priority) × (f.seq ≤ e.seq))

abbrev AreAfter : QueueEntry → List QueueEntry → Type 0
AreAfter e [] = Unit
AreAfter e (f ∷ queue) = IsAfter e f × AreAfter e queue

before-IsAfter : (e f : QueueEntry) → before e f ≡ true → IsAfter e f
unfolding before
before-IsAfter e f h = ground arith

not_before-IsAfter : (e f : QueueEntry) → before f e ≡ false → IsAfter e f
unfolding before
not_before-IsAfter e f h = ground arith

IsAfter-trans : (e f g : QueueEntry) → IsAfter e f → IsAfter f g → IsAfter e g
IsAfter-trans e f g h i = ground arith

AreAfter-trans :
    (e f : QueueEntry) (queue : List QueueEntry) → IsAfter e f → AreAfter f queue → AreAfter e queue
AreAfter-trans e f [] h k = tt
AreAfter-trans e f (g ∷ queue) h (i, k) = (IsAfter-trans e f g h i, AreAfter-trans e f queue h k)

pop-AreAfter :
    (queue : List QueueEntry) {e : QueueEntry} {rest : List QueueEntry}
    → pop queue ≡ some (e, rest)
    → AreAfter e rest
unfolding pop
pop-AreAfter [] h = cc
pop-AreAfter (f ∷ queue) {e = e} {rest = rest} h = elim (Option-cases (pop queue)) [
  | inl done ↦ ground (arith, done, h)
  | inr ((g, others), more) ↦ elim (Bool-cases (before g f)) [
    | inl sooner ↦
        ground (arith, more, h, sooner, before-IsAfter g f sooner, pop-AreAfter queue more)
    | inr later ↦
        let first = not_before-IsAfter f g later in
        ground
          (arith, more, h, later, first, AreAfter-trans f g others first (pop-AreAfter queue more))
  ]
]

least_of_rest :
    (e : QueueEntry) (queue : List QueueEntry) (id priority : ℕ)
    → AreAfter e queue
    → waits_at queue id priority ≡ true
    → e.priority ≤ priority
unfolding waits_at
least_of_rest e [] id priority h waits = cc
least_of_rest e (f ∷ queue) id priority (after, h) waits =
    elim (Bool-cases (f.transfer_id == id && f.priority == priority)) [
      | inl here ↦ ground (arith, here, after)
      | inr there ↦ least_of_rest e queue id priority h (ground (arith, there, waits))
    ]

-- An entry that is popped is among the most urgent of the queue.
least_of_queue :
    (queue : List QueueEntry) {e : QueueEntry} {rest : List QueueEntry} (id priority : ℕ)
    → pop queue ≡ some (e, rest)
    → waits_at queue id priority ≡ true
    → e.priority ≤ priority
unfolding waits_at
least_of_queue queue {e = e} {rest = rest} id priority popped waits =
    elim (Bool-cases (e.transfer_id == id && e.priority == priority)) [
      | inl here ↦ ground (arith, here)
      | inr there ↦
          least_of_rest e rest id priority (pop-AreAfter queue popped)
            (ground (arith, there, waits, waits_at-pop queue id priority popped))
    ]

next_transfer_lem :
    (s : AppState) {app : AppState} {id : ℕ} {rec : TransferRecord}
    → next_transfer s ≡ (app, some id)
    → HashMap.get s.records id ≡ some rec
    → (e : QueueEntry) × (rest : List QueueEntry) × (pop s.queue ≡ some (e, rest))
      × (e.priority ≡ rec.priority)
unfolding next_transfer
next_transfer_lem s {app = app} {id = id} {rec = rec} ran found =
    elim (Option-cases (pop s.queue)) [
      | inl empty ↦ absurd (ground (arith, empty, ran))
      | inr ((e, rest), popped) ↦ elim (Option-cases (HashMap.get s.records e.transfer_id)) [
        | inl gone ↦ absurd (ground (arith, popped, gone, ran))
        | inr (r, there) ↦ (e, rest, popped, ground (arith, popped, there, ran, found))
      ]
    ]

-- In every state that the daemon reaches after a start from records that are filed once each,
-- under their own ids: where the scheduler takes a transfer to start it, no transfer that is
-- queued then has a smaller priority number, but for those that were taken before and have not
-- started.
pub next_transfer_most_urgent :
    (s : AppState) (t : System)
    → IsKeyed s.records
    → Steps (started s) t
    → {app : AppState} {id : ℕ} {rec : TransferRecord} → next_transfer t.app ≡ (app, some id)
    → HashMap.get t.app.records id ≡ some rec
    → (j : ℕ) {other : TransferRecord} → HashMap.get t.app.records j ≡ some other
    → is_queued other.status ≡ true
    → contains t.taken j ≡ false
    → rec.priority ≤ other.priority
next_transfer_most_urgent s t keyed steps ran found j {other = other} listed queued free =
    let (e, rest, popped, same) = next_transfer_lem t.app ran found in
    let planned = reachable-IsPlanned s t keyed steps j other listed queued in
    omega (
      arith,
      same,
      least_of_queue t.app.queue j other.priority popped (ground (arith, planned, free)),
    )
