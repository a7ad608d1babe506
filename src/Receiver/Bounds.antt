-- ===== src/Receiver/Bounds.antt =====
-- The loop of `accept_transfer` never has more streams open than it may, nor accepts more.
use sc_transport.Base.{
  ◌-◌, ◌≤◌, ◌≡◌, arith, Bool, List, [], ◌∷◌, length, ltb, ◌==◌, Bool-cases, inl, inr, Result, ok,
  ◌>>=◌, ◌>>◌, >>=-eq-ok,
}
use sc_transport.Base.Bytes.{Bytes}
use sc_transport.Base.HashSet.{HashSet}
use sc_transport.Crates.{Crates}
use sc_transport.Wire.{TransferManifest}
use sc_transport.Receiver.{ReceiveError}
use sc_transport.Receiver.Growth.{Grows}
use sc_transport.Receiver.Growth.Frames.{ingest_wire_frame-Grows}
use sc_transport.Receiver.Ingest.{ingest_wire_frame}
use sc_transport.Receiver.Transfer.{
  ReceiverConfig, Event, joined, datagram, Loop, Outcome, complete, waiting, received_of,
  max_streams, max_parallel, on_wire, on_event, check_streams, receive_loop,
}

-- the state that the loop ends in, or waits in
abbrev pub loop_of : Outcome → Loop
loop_of (complete l) = l
loop_of (waiting l) = l

module _ (lib : Crates) (rx : ReceiverConfig) (manifest : TransferManifest) (has_rs : Bool)
    (lost : HashSet) where
  pub record IsBounded (l : Loop) : Type 0 where
    pub streams : l.accepted_streams ≤ max_streams lib rx manifest
    pub parallel : l.inflight ≤ max_parallel lib rx manifest

  -- A frame changes no count of streams, and no chunk is forgotten.
  on_wire_counts :
      (wire : Bytes) (l : Loop) {t : Loop}
      → on_wire lib rx manifest has_rs lost wire l ≡ ok t
      → (t.accepted_streams ≡ l.accepted_streams)
        × (t.inflight ≡ l.inflight)
        × Grows (received_of l) (received_of t)
  unfolding on_wire
  on_wire_counts wire l {t} h =
      let ((ingest, g), ran, rest) =
        >>=-eq-ok (ingest_wire_frame lib manifest has_rs rx.verify_checksums lost wire l.ingest) _
          h in
      let e : ingest ≡ t.ingest = ground arith in
      (
        ground arith,
        ground arith,
        rw (← e) (
            ingest_wire_frame-Grows lib manifest rx.verify_checksums has_rs lost wire l.ingest ran),
      )

  on_event-IsBounded :
      (event : Event) (l : Loop) {t : Loop}
      → IsBounded l
      → on_event lib rx manifest has_rs lost event l ≡ ok t
      → IsBounded t
  unfolding on_event
  on_event-IsBounded (joined wire) l b h = elim (Bool-cases (l.inflight == 0)) [
    | inl idle ↦ ground (arith, idle)
    | inr busy ↦
        let ran =
          on_wire_counts wire (record l { inflight = l.inflight - 1 }) (rw (busy, on_event) at h) in
        ground (arith, ran.0, ran.1)
  ]
  on_event-IsBounded (datagram wire) l b h =
      let ran = on_wire_counts wire l h in ground (arith, ran.0, ran.1)
  on_event-IsBounded _ l b h = ground arith

  receive_loop-IsBounded_next :
      (event : Event) (events : List Event) (l : Loop) {o : Outcome}
      → ((t : Loop)
          → IsBounded t
          → receive_loop lib rx manifest has_rs lost events t ≡ ok o
          → IsBounded (loop_of o))
      → IsBounded l
      → (check_streams lib rx manifest has_rs lost l
          >> (on_event lib rx manifest has_rs lost event l
              >>= receive_loop lib rx manifest has_rs lost events))
        ≡ ok o
      → IsBounded (loop_of o)
  receive_loop-IsBounded_next event events l rest b h =
      let (_, _, h') = >>=-eq-ok (check_streams lib rx manifest has_rs lost l) _ h in
      let (t, ran, h'') = >>=-eq-ok (on_event lib rx manifest has_rs lost event l) _ h' in
      rest t (on_event-IsBounded event l b ran) h''

  -- Whatever the connection delivers: a loop that starts with at most `max_streams` accepted
  -- streams, at most `max_parallel` of them being read, has no more than these where it completes
  -- or waits.
  pub receive_loop-IsBounded :
      (events : List Event) (l : Loop) {o : Outcome}
      → IsBounded l
      → receive_loop lib rx manifest has_rs lost events l ≡ ok o
      → IsBounded (loop_of o)
  unfolding receive_loop
  receive_loop-IsBounded [] l {o} b h = let e : loop_of o ≡ l = ground arith in rw e b
  receive_loop-IsBounded (event ∷ events) l {o} b h =
      elim (Bool-cases (ltb (length (received_of l)) manifest.num_chunks)) [
        | inl more ↦
            receive_loop-IsBounded_next event events l
              (λ t b' h'. receive_loop-IsBounded events t b' h') b (rw (more, receive_loop) at h)
        | inr full ↦
            let done : ◌≡◌ {A = Result ReceiveError Outcome} (ok (complete l)) (ok o) =
              rw (full, receive_loop) at h in
            let e : loop_of o ≡ l = ground arith in rw e b
      ]
