-- ===== src/Telemetry/Streams/Laws.antt =====
-- Every event over QUIC is counted once, and a stale stream is replaced.
use Prim.Native.String.{◌++◌ as str_append}
use sc_transport.Base.{
  ℕ, zero, suc, ◌+◌, ◌≡◌, arith, String, Bool, true, Option, none, some, Result, ok, err,
}
use sc_transport.Base.Bytes.{Bytes}
use sc_transport.Wire.Codec.{Codec}
use sc_transport.Telemetry.{TelemetryEvent, TransportError}
use sc_transport.Telemetry.Sse.{Broadcast}
use sc_transport.Telemetry.Streams.{
  QuicStreams, Connection, fall_back, try_write, write_uni, write_coalesced, finish_send,
  write_framed, send_event_over_quic, send_event, coalesce,
}

-- Every event that was sent is counted as delivered or as dropped.
abbrev pub IsCounted : {V C S : Type 0} → QuicStreams V C S → Type 0
IsCounted s = s.events_delivered + s.events_dropped ≡ s.events_sent

-- The counters, the fan-out and the waiting events are as before.
record IsKept {V C S : Type 0} (s t : QuicStreams V C S) : Type 0 where
  sent_kept : t.events_sent ≡ s.events_sent
  delivered_kept : t.events_delivered ≡ s.events_delivered
  dropped_kept : t.events_dropped ≡ s.events_dropped

module _ {V C : Type 0} (conn : Connection) (persistent : Bool) (flush_every : ℕ) where
  open conn use {Net, Stream}

  try_write-IsKept :
      (framed : Bytes) (net : Net) (s : QuicStreams V C Stream)
      → IsKept s (try_write conn persistent flush_every framed net s).1
  unfolding try_write
  try_write-IsKept framed net s = ground arith

  write_uni-IsKept :
      (n : ℕ) (framed : Bytes) (net : Net) (s : QuicStreams V C Stream)
      → IsKept s (write_uni conn persistent flush_every n framed net s).1
  unfolding write_uni
  write_uni-IsKept zero framed net s = ground arith
  write_uni-IsKept (suc n) framed net s =
      let (net', s', wrote) = try_write conn persistent flush_every framed net s in
      ground (arith, try_write-IsKept framed net s, write_uni-IsKept n framed net' s')

  write_framed-IsKept :
      (framed : Bytes) (net : Net) (s : QuicStreams V C Stream)
      → IsKept s (write_framed conn persistent flush_every framed net s).1
  unfolding write_framed
  write_framed-IsKept framed net s = ground (arith, write_uni-IsKept 2 framed net s)

  module _ (codec : Codec (TelemetryEvent V)) (coalesce_n : ℕ)
      (message : TransportError → String) where
    write_coalesced-IsKept :
        (framed : Result TransportError (Option Bytes)) (net : Net) (s : QuicStreams V C Stream)
        → IsKept s
            (write_coalesced conn persistent flush_every codec coalesce_n message framed net s).1
    unfolding write_coalesced
    write_coalesced-IsKept (err e) net s = ground arith
    write_coalesced-IsKept (ok none) net s = ground arith
    write_coalesced-IsKept (ok (some bytes)) net s = write_framed-IsKept bytes net s

    send_event_over_quic-IsKept :
        (net : Net) (s : QuicStreams V C Stream) (event : TelemetryEvent V)
        → IsKept s
            (send_event_over_quic conn persistent flush_every codec coalesce_n message net s
              event).1
    unfolding send_event_over_quic
    send_event_over_quic-IsKept net s event =
        let (pending, framed) = coalesce codec coalesce_n s.pending_events event in
        let held : QuicStreams V C Stream = record s { pending_events = pending } in
        let net' = (conn.connect net).0 in ground (arith, write_coalesced-IsKept framed net' held)

  -- With two tries or more: where the shared stream refuses a frame, and a new stream is opened
  -- and takes it, the write goes well, and the new stream is the shared one.
  pub write_uni-retries :
      (framed : Bytes) (net : Net) (s : QuicStreams V C Stream) (n : ℕ) {old new : Stream}
      {broken opened written : Net} {m : String}
      → s.shared_uni_stream ≡ some old
      → conn.write_all net old framed ≡ (broken, err m)
      → conn.open_uni broken ≡ (opened, ok new)
      → conn.write_all opened new framed ≡ (written, ok tt)
      → ((write_uni conn persistent flush_every (suc (suc n)) framed net s).1.shared_uni_stream
          ≡ some new)
        × ((write_uni conn persistent flush_every (suc (suc n)) framed net s).2 ≡ true)
  unfolding write_uni try_write
  write_uni-retries framed net s n held stale opens takes = ground arith

module _ {V : Type 0} (bus : Broadcast (TelemetryEvent V)) (reason_value : String → V)
    (codec : Codec (TelemetryEvent V)) (conn : Connection) (enabled mirror persistent : Bool)
    (flush_every coalesce_n : ℕ) (message : TransportError → String) where
  open conn use {Net, Stream}
  open bus use {Channel}

  fall_back-counts :
      (s : QuicStreams V Channel Stream) (ts : ℕ) (run : String) (event : TelemetryEvent V)
      (reason : String)
      → let t = (fall_back bus reason_value s ts run event reason).0 in
        (t.events_sent ≡ s.events_sent)
        × (t.events_delivered + t.events_dropped ≡ suc (s.events_delivered + s.events_dropped))
  unfolding fall_back
  fall_back-counts s ts run event reason = ground arith

  finish_send-counts :
      (outcome : Result String (Unit {0})) (s : QuicStreams V Channel Stream) (ts : ℕ)
      (run : String) (event : TelemetryEvent V)
      → let t =
          (finish_send bus reason_value codec conn enabled mirror persistent flush_every coalesce_n
            message outcome s ts run event).0 in
        (t.events_sent ≡ s.events_sent)
        × (t.events_delivered + t.events_dropped ≡ suc (s.events_delivered + s.events_dropped))
  unfolding finish_send
  finish_send-counts (err m) s ts run event =
      fall_back-counts s ts run event (str_append "quic_stream_send_failed:" m)
  finish_send-counts (ok _) s ts run event = ground arith

  -- Whatever the connection does and however the variables of the environment are set: if the
  -- delivered and the dropped events were as many as the sent ones, they are so after `send_event`
  -- of the QUIC streams.
  pub send_event-IsCounted :
      (net : Net) (s : QuicStreams V Channel Stream) (ts : ℕ) (run : String)
      (event : TelemetryEvent V)
      → IsCounted s
      → IsCounted
          (send_event bus reason_value codec conn enabled mirror persistent flush_every coalesce_n
            message net s ts run event).1
  unfolding send_event
  send_event-IsCounted net s ts run event h =
      let counted : QuicStreams V Channel Stream = record s { events_sent = s.events_sent + 1 } in
      let (net', s', outcome) =
        send_event_over_quic conn persistent flush_every codec coalesce_n message net counted
          event in
      ground (
        arith,
        fall_back-counts counted ts run event "quic_streams_feature_disabled",
        finish_send-counts outcome s' ts run event,
        send_event_over_quic-IsKept conn persistent flush_every codec coalesce_n message net counted
            event,
      )
