-- ===== src/Daemon/Planned/Progress.antt =====
-- The reports of running jobs keep every queued transfer planned.
use sc_transport.Base.{ℕ, ◌≡◌, ◌==◌, refl, arith, some, List, Bool-cases, Option-cases, inl, inr}
use sc_transport.Base.HashMap
use sc_transport.Base.HashMap.{get-put}
use sc_transport.Daemon.{F64, TransferRecord, TransferEventRecord, AppState, append_event}
use sc_transport.Daemon.Progress.{
  note_total, moved_record, note_copied, report_sent, report_received,
}
use sc_transport.Daemon.Planned.{IsPlanned, append_event_keeps}

-- A record that keeps its status and its priority is planned as before.
same_status-IsPlanned :
    (s : AppState) (id : ℕ) (rec rec' : TransferRecord) (taken : List ℕ)
    → HashMap.get s.records id ≡ some rec
    → rec'.status ≡ rec.status
    → rec'.priority ≡ rec.priority
    → IsPlanned s taken
    → IsPlanned (record s { records = HashMap.put s.records id rec' }) taken
same_status-IsPlanned s id rec rec' taken there status priority h j r found waits =
    elim (Bool-cases (id == j)) [
      | inl here ↦
          let e : id ≡ j = ground (arith, here) in
          let f : rec' ≡ r = ground (arith, get-put s.records id j rec', here, found) in
          ground (arith, h j rec (rw e at there), f, status, priority, waits)
      | inr other ↦ h j r (ground (arith, get-put s.records id j rec', other, found)) waits
    ]

logged-IsPlanned :
    (s : AppState) (event : TransferEventRecord) (taken : List ℕ)
    → IsPlanned s taken
    → IsPlanned (append_event s event) taken
logged-IsPlanned s event taken h j rec found waits =
    let (r, q) = append_event_keeps s event in rw q (h j rec (rw r at found) waits)

pub note_total-IsPlanned :
    (s : AppState) (id total : ℕ) (taken : List ℕ)
    → IsPlanned s taken
    → IsPlanned (note_total s id total) taken
unfolding note_total
note_total-IsPlanned s id total taken h = elim (Option-cases (HashMap.get s.records id)) [
  | inl gone ↦ rw (note_total, gone) h
  | inr (rec, there) ↦
      rw (note_total, there) (same_status-IsPlanned s id rec _ taken there refl refl h)
]

pub note_copied-IsPlanned :
    (s : AppState) (now id total copied : ℕ) (pct mbps : F64) (taken : List ℕ)
    → IsPlanned s taken
    → IsPlanned (note_copied s now id total copied pct mbps) taken
unfolding note_copied
note_copied-IsPlanned s now id total copied pct mbps taken h =
    elim (Option-cases (HashMap.get s.records id)) [
      | inl gone ↦ rw (note_copied, gone) h
      | inr (rec, there) ↦
          rw (note_copied, there)
            (same_status-IsPlanned s id rec (moved_record now total copied pct mbps rec) taken there
              refl refl h)
    ]

pub report_sent-IsPlanned :
    (s : AppState) (now ts id total sent : ℕ) (pct mbps : F64) (taken : List ℕ)
    → IsPlanned s taken
    → IsPlanned (report_sent s now ts id total sent pct mbps) taken
unfolding report_sent
report_sent-IsPlanned s now ts id total sent pct mbps taken h =
    logged-IsPlanned _ _ taken (note_copied-IsPlanned s now id total sent pct mbps taken h)

pub report_received-IsPlanned :
    (s : AppState) (now ts id total : ℕ) (taken : List ℕ)
    → IsPlanned s taken
    → IsPlanned (report_received s now ts id total) taken
unfolding report_received
report_received-IsPlanned s now ts id total taken h =
    elim (Option-cases (HashMap.get s.records id)) [
      | inl gone ↦ rw gone (logged-IsPlanned s _ taken h)
      | inr (rec, there) ↦
          rw there
            (logged-IsPlanned _ _ taken (same_status-IsPlanned s id rec _ taken there refl refl h))
    ]
