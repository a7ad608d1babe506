-- ===== src/Telemetry/Streams/Order.antt =====
-- Coalesced events: none is lost, none is sent twice, and they keep their order.
use sc_transport.Base.{
  ℕ, suc, ◌<◌, ◌≡◌, refl, ap, ◌∙◌, arith, none, some, List, [], ◌∷◌, ◌++◌, length, Result, ok,
  ◌>>=◌, Bool-cases, inl, inr, ltb, ltb→lt, ◌⊎◌, length-append, append_assoc, append-nil,
}
use sc_transport.Base.Bytes.{Bytes}
use sc_transport.Wire.Codec.{Codec, RoundTrips}
use sc_transport.Telemetry.{progress, TelemetryEvent, TransportError}
use sc_transport.Telemetry.Frames.{frame_event_batch, parse_framed_events}
use sc_transport.Telemetry.Frames.RoundTrip.{parse_framed_events-frame_event_batch}
use sc_transport.Telemetry.Streams.{coalesce}

-- The events are all of progress.
abbrev pub AreProgress : {V : Type 0} → List (TelemetryEvent V) → Type 0
AreProgress [] = Unit
AreProgress (event ∷ events) = (event.event_type ≡ progress) × AreProgress events

module _ {V : Type 0} (codec : Codec (TelemetryEvent V)) where
  -- the events of frames
  unfoldable pub parse_all : List Bytes → Result TransportError (List (TelemetryEvent V))
  parse_all [] = ok []
  parse_all (frame ∷ frames) = do
    events ← parse_framed_events codec frame
    rest ← parse_all frames
    ok (events ++ rest)

module _ {V : Type 0} (codec : Codec (TelemetryEvent V)) (coalesce_n : ℕ) where
  -- The events are coalesced one after the other: those that wait in the end, and the frames.
  unfoldable pub coalesce_all :
      List (TelemetryEvent V)
      → List (TelemetryEvent V)
      → Result TransportError (List (TelemetryEvent V) × List Bytes)
  coalesce_all pending [] = ok (pending, [])
  coalesce_all pending (event ∷ events) =
      let (pending', framed) = coalesce codec coalesce_n pending event in
      framed >>= λ frame. coalesce_all pending' events >>= λ (waiting, frames).
      ok (waiting, elim frame [ none ↦ frames | some bytes ↦ bytes ∷ frames ])

  -- A progress event waits, or fills a frame.
  coalesce-progress :
      (pending : List (TelemetryEvent V)) (event : TelemetryEvent V)
      → 1 < coalesce_n
      → event.event_type ≡ progress
      → (suc (length pending) < coalesce_n)
          × (coalesce codec coalesce_n pending event ≡ (pending ++ (event ∷ []), ok none))
        ⊎ (coalesce codec coalesce_n pending event
            ≡ ([], frame_event_batch codec (pending ++ (event ∷ [])) >>= λ bytes. ok (some bytes)))
  unfolding coalesce
  coalesce-progress pending event many p =
      let queue = pending ++ (event ∷ []) in
      elim (Bool-cases (ltb (length queue) coalesce_n)) [
        | inl waits ↦ inl (
          omega (arith, length-append pending (event ∷ []), ltb→lt (length queue) coalesce_n waits),
          ground (arith, waits),
        )
        | inr full ↦ inr (ground (arith, full))
      ]

  module _ (pending : List (TelemetryEvent V)) (event : TelemetryEvent V)
      (events : List (TelemetryEvent V)) {waiting : List (TelemetryEvent V)}
      {frames : List Bytes} where
    coalesce_all_waits :
        {queue : List (TelemetryEvent V)}
        → coalesce codec coalesce_n pending event ≡ (queue, ok none)
        → coalesce_all pending (event ∷ events) ≡ ok (waiting, frames)
        → coalesce_all queue events ≡ ok (waiting, frames)
    unfolding coalesce_all
    coalesce_all_waits e h = ground arith

    coalesce_all_full :
        {batch : Result TransportError Bytes}
        → coalesce codec coalesce_n pending event ≡ ([], batch >>= λ bytes. ok (some bytes))
        → coalesce_all pending (event ∷ events) ≡ ok (waiting, frames)
        → (bytes : Bytes) × (rest : List Bytes) × (batch ≡ ok bytes)
          × (coalesce_all [] events ≡ ok (waiting, rest))
          × (frames ≡ bytes ∷ rest)
    unfolding coalesce_all
    coalesce_all_full e h = ground arith

  -- With more than one event to a frame, and a codec that decodes what it encodes: progress events
  -- that are coalesced one after the other without an error are, in their order and behind those
  -- that waited before, what the frames are parsed to, followed by those that still wait, which
  -- are fewer than go in a frame.
  pub parse_all-coalesce_all :
      (pending events : List (TelemetryEvent V)) {waiting : List (TelemetryEvent V)}
      {frames : List Bytes}
      → RoundTrips codec
      → 1 < coalesce_n
      → AreProgress events
      → length pending < coalesce_n
      → coalesce_all pending events ≡ ok (waiting, frames)
      → (taken : List (TelemetryEvent V)) × (parse_all codec frames ≡ ok taken)
        × (taken ++ waiting ≡ pending ++ events)
        × (length waiting < coalesce_n)
  unfolding coalesce_all parse_all
  parse_all-coalesce_all pending [] rt many p few h =
      ([], ground arith, ground (arith, append-nil pending), ground arith)
  parse_all-coalesce_all pending (event ∷ events) {waiting} {frames} rt many (p, ps) few h =
      let queue = pending ++ (event ∷ []) in
      elim (coalesce-progress pending event many p) [
        | inl (waits, e) ↦
            (let later : coalesce_all queue events ≡ ok (waiting, frames) =
                coalesce_all_waits pending event events e h in
              let long : length queue < coalesce_n =
                omega (arith, length-append pending (event ∷ [])) in
              let (taken, parsed, order, short) =
                parse_all-coalesce_all queue events rt many ps long later in
              (taken, parsed, order ∙ append_assoc pending (event ∷ []) events, short))
        | inr e ↦
            (let (bytes, rest, framed, later, f) = coalesce_all_full pending event events e h in
              let (taken, parsed, order, short) =
                parse_all-coalesce_all [] events rt many ps (omega arith) later in
              (
                queue ++ taken,
                rw (f, parse_framed_events-frame_event_batch codec rt queue framed, parsed) refl,
                append_assoc queue taken waiting
                    ∙ ap (◌++◌ queue) order
                    ∙ append_assoc pending (event ∷ []) events,
                short,
              ))
      ]
