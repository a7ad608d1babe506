-- ===== src/Telemetry/Streams.antt =====
-- The transport of crates/sc-transport-quic/src/lib.rs: events over QUIC streams, several of them in a
-- frame where the environment asks for it, and the fan-out where a stream fails. The connection is a
-- parameter.
pub mod Laws
pub mod Order
use Prim.Native.String.{◌++◌ as str_append}
use sc_transport.Base.{
  ℕ, zero, suc, ◌+◌, String, Bool, true, false, ◌&&◌, Option, none, some, List, [], ◌∷◌, ◌++◌,
  length, not, ltb, ◌==◌, ◌||◌, ◌*◌, ◌%◌, if◌then◌else◌, Result, ok, err, ◌>>=◌,
}
use sc_transport.Base.Bytes.{Bytes}
use sc_transport.Wire.Codec.{Codec}
use sc_transport.Telemetry.{
  EventType, progress, transport_fallback, TelemetryEvent, DeliveryStatus, sent, dropped, fell_back,
  TransportError,
}
use sc_transport.Telemetry.Frames.{frame_event, frame_event_batch}
use sc_transport.Telemetry.Sse
use sc_transport.Telemetry.Sse.{Broadcast, HttpSse}

abbrev pub is_progress : EventType → Bool
is_progress progress = true
is_progress _ = false

-- `C` is the type of the fan-out's channels, and `S` of the streams.
pub record QuicStreams (V C S : Type 0) : Type 0 where
  pub fallback : HttpSse C
  pub events_sent : ℕ
  pub events_delivered : ℕ
  pub events_dropped : ℕ
  pub fallback_count : ℕ
  pub shared_uni_stream : Option S
  pub pending_events : List (TelemetryEvent V)
  pub uni_writes : ℕ

-- quinn's connection, with a state. An error is its message.
pub record Connection : Type 1 where
  pub Net : Type 0
  pub Stream : Type 0
  pub connect : Net → Net × Result String (Unit {0})
  pub open_uni : Net → Net × Result String Stream
  pub write_all : Net → Stream → Bytes → Net × Result String (Unit {0})
  pub flush : Net → Stream → Net
  -- a stream in both directions that is opened, written and finished
  pub send_bi : Net → Bytes → Net × Result String (Unit {0})

abbrev pub large_frame_threshold : ℕ
large_frame_threshold = 16 * 1024

module _ {V : Type 0} (codec : Codec (TelemetryEvent V)) where
  -- The frame to write now, if there is one, and the events that still wait: `coalesce_n` progress
  -- events go in a frame.
  unfoldable pub coalesce :
      ℕ
      → List (TelemetryEvent V)
      → TelemetryEvent V
      → List (TelemetryEvent V) × Result TransportError (Option Bytes)
  coalesce coalesce_n pending event =
      let batch = pending ++ (event ∷ []) in
      let framed = frame_event_batch codec batch >>= λ bytes. ok (some bytes) in
      let single = frame_event codec event >>= λ bytes. ok (some bytes) in
      if ltb 1 coalesce_n && is_progress event.event_type
      then (if ltb (length batch) coalesce_n then (batch, ok none) else ([], framed))
      else (pending, single)

-- `persistent` and `flush_every` are variables of the environment.
module _ {V C : Type 0} (conn : Connection) (persistent : Bool) (flush_every : ℕ) where
  open conn use {Net, Stream}

  -- One try to write a frame to the shared stream, which is opened if it is not there.
  unfoldable pub try_write :
      Bytes → Net → QuicStreams V C Stream → Net × QuicStreams V C Stream × Bool
  try_write framed net s =
      let ready : Net × Result String Stream = elim s.shared_uni_stream [
        | none ↦ conn.open_uni net
        | some old ↦ (net, ok old)
      ] in
      elim ready.1 [
        | err e ↦ (ready.0, s, false)
        | ok stream ↦
            (let (net', wrote) = conn.write_all ready.0 stream framed in
              let writes = s.uni_writes + 1 in
              elim wrote [
                | err e ↦ (net', record s { shared_uni_stream = none }, false)
                | ok _ ↦ (
                  if writes % flush_every == 0 then conn.flush net' stream else net',
                  record s { shared_uni_stream = some stream; uni_writes = writes },
                  true,
                )
              ])
      ]

  -- the loop over `0..attempts`
  unfoldable pub write_uni :
      ℕ → Bytes → Net → QuicStreams V C Stream → Net × QuicStreams V C Stream × Bool
  write_uni zero framed net s = (net, s, false)
  write_uni (suc attempts) framed net s =
      let (net', s', wrote) = try_write framed net s in
      let again = write_uni attempts framed net' s' in if wrote then (net', s', true) else again

  -- A large frame gets a stream of its own, in a task that nobody waits for.
  unfoldable pub write_framed :
      Bytes → Net → QuicStreams V C Stream → Net × QuicStreams V C Stream × Result String (Unit {0})
  write_framed framed net s =
      let (opened, stream) = conn.open_uni net in
      let spawned : Net = elim stream [
        | err e ↦ opened
        | ok stream ↦ (conn.write_all opened stream framed).0
      ] in
      let (net', s', wrote) = write_uni 2 framed net s in
      let (net'', answer) = conn.send_bi net' framed in
      if ltb large_frame_threshold (length framed) || not persistent
      then (spawned, s, ok tt)
      else (if wrote then (net', s', ok tt) else (net'', s', answer))

  -- `coalesce_n` is a variable too, and `message` writes an error out.
  module _ (codec : Codec (TelemetryEvent V)) (coalesce_n : ℕ)
      (message : TransportError → String) where
    unfoldable pub write_coalesced :
        Result TransportError (Option Bytes)
        → Net
        → QuicStreams V C Stream
        → Net × QuicStreams V C Stream × Result String (Unit {0})
    write_coalesced (err e) net s = (net, s, err (message e))
    write_coalesced (ok none) net s = (net, s, ok tt)
    write_coalesced (ok (some bytes)) net s = write_framed bytes net s

    unfoldable pub send_event_over_quic :
        Net
        → QuicStreams V C Stream
        → TelemetryEvent V
        → Net × QuicStreams V C Stream × Result String (Unit {0})
    send_event_over_quic net s event =
        let (pending, framed) = coalesce codec coalesce_n s.pending_events event in
        let held : QuicStreams V C Stream = record s { pending_events = pending } in
        let (net', connected) = conn.connect net in
        elim connected [ err m ↦ (net', s, err m) | ok _ ↦ write_coalesced framed net' held ]

module _ {V : Type 0} (bus : Broadcast (TelemetryEvent V)) (reason_value : String → V) where
  open bus use {Channel}

  -- `ts` is the time of the clock; `reason_value` is `json!({ "reason": reason })`.
  unfoldable pub fallback_event : ℕ → String → String → TelemetryEvent V
  fallback_event ts run_id reason = record {
    run_id = run_id;
    task_id = none;
    event_type = transport_fallback;
    timestamp_ms = ts;
    payload = reason_value reason;
  }

  -- Both events go to the fan-out.
  unfoldable pub fall_back :
      {S : Type 0}
      → QuicStreams V Channel S
      → ℕ
      → String
      → TelemetryEvent V
      → String
      → QuicStreams V Channel S × Result TransportError DeliveryStatus
  fall_back {S} s ts run_id event reason =
      let told = (Sse.send_event bus s.fallback run_id (fallback_event ts run_id reason)).0 in
      let (passed, status) = Sse.send_event bus told run_id event in
      let routed : QuicStreams V Channel S = record s {
        fallback = passed;
        fallback_count = s.fallback_count + 1;
      } in
      let counted : QuicStreams V Channel S = elim status [
        | dropped ↦ record routed { events_dropped = s.events_dropped + 1 }
        | _ ↦ record routed { events_delivered = s.events_delivered + 1 }
      ] in
      (counted, ok (fell_back reason))

  -- `enabled` is the feature `quic-streams`, and `mirror` a variable of the environment.
  module _ (codec : Codec (TelemetryEvent V)) (conn : Connection) (enabled mirror persistent : Bool)
      (flush_every coalesce_n : ℕ) (message : TransportError → String) where
    open conn use {Net, Stream}

    -- what is made of the outcome of the send
    unfoldable pub finish_send :
        Result String (Unit {0})
        → QuicStreams V Channel Stream
        → ℕ
        → String
        → TelemetryEvent V
        → QuicStreams V Channel Stream × Result TransportError DeliveryStatus
    finish_send (err m) s ts run_id event =
        fall_back s ts run_id event (str_append "quic_stream_send_failed:" m)
    finish_send (ok _) s ts run_id event = (
      record s {
        events_delivered = s.events_delivered + 1;
        fallback = if mirror then (Sse.send_event bus s.fallback run_id event).0 else s.fallback;
      },
      ok sent,
    )

    unfoldable pub send_event :
        Net
        → QuicStreams V Channel Stream
        → ℕ
        → String
        → TelemetryEvent V
        → Net × QuicStreams V Channel Stream × Result TransportError DeliveryStatus
    send_event net s ts run_id event =
        let counted : QuicStreams V Channel Stream = record s { events_sent = s.events_sent + 1 } in
        let (unsent, fell) = fall_back counted ts run_id event "quic_streams_feature_disabled" in
        let (net', s', outcome) =
          send_event_over_quic conn persistent flush_every codec coalesce_n message net counted
            event in
        let (finished, status) = finish_send outcome s' ts run_id event in
        if not enabled then (net, unsent, fell) else (net', finished, status)
