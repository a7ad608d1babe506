-- ===== src/Telemetry/Datagrams/Laws.antt =====
-- How the counters move with an event, and where the event goes.
use sc_transport.Base.{ℕ, suc, ◌+◌, ◌≡◌, refl, arith, String, Bool, Option, Result, ok, err, ◌⊎◌}
use sc_transport.Base.Bytes.{Bytes}
use sc_transport.Base.Float.{Float}
use sc_transport.Wire.Codec.{Codec}
use sc_transport.Telemetry.{
  TelemetryEvent, DeliveryStatus, sent, delivered, dropped, fell_back, TransportError,
}
use sc_transport.Telemetry.Sse
use sc_transport.Telemetry.Sse.{Broadcast, HttpSse}
use sc_transport.Telemetry.Streams.{fallback_event}
use sc_transport.Telemetry.Datagrams.{
  QuicDatagrams, record_loss_sample, serialize_event_for_datagram,
}
use sc_transport.Telemetry.Datagrams.Window.{IsWindowed}
use sc_transport.Telemetry.Datagrams.Windowed.{route_event-IsWindowed}
use sc_transport.Telemetry.Datagrams.Send.{
  lose_event, pass_on, route_to_sse, finish_send, send_serialized, over_datagram, route_event,
  send_event,
}

-- How the counters move from `s` to `t` with a status: an event that fell back is not counted as
-- dropped, but where the loss rate made it fall back.
abbrev pub Accounts :
    {F C : Type 0} → QuicDatagrams F C → QuicDatagrams F C → DeliveryStatus → Type 0
Accounts s t delivered = ⊥
Accounts s t sent = (t.dropped_count ≡ s.dropped_count) × (t.fallback_count ≡ s.fallback_count)
Accounts s t dropped =
    (t.dropped_count ≡ suc s.dropped_count) × (t.fallback_count ≡ s.fallback_count)
Accounts s t (fell_back reason) =
    (t.dropped_count ≡ s.dropped_count)
      × ((t.fallback_count ≡ s.fallback_count) ⊎ (t.fallback_count ≡ suc s.fallback_count))
    ⊎ (reason ≡ "loss_threshold_exceeded")
      × (t.dropped_count ≡ suc s.dropped_count)
      × (t.fallback_count ≡ suc s.fallback_count)

module _ {V : Type 0} (float : Float) (bonus : Option float.F64)
    (bus : Broadcast (TelemetryEvent V)) (reason_value : String → V) where
  open float use {F64}
  open bus use {Channel}

  -- the fan-out with the event, and with the notice before it
  abbrev pub with_event : HttpSse Channel → String → TelemetryEvent V → HttpSse Channel
  with_event fanout run event = (Sse.send_event bus fanout run event).0

  abbrev pub with_notice :
      HttpSse Channel → ℕ → String → TelemetryEvent V → String → HttpSse Channel
  with_notice fanout ts run event reason =
      with_event (with_event fanout run (fallback_event bus reason_value ts run reason)) run event

  -- What the fan-out `new` has got of an event, where it was `old`: an event that was sent is there too,
  -- and one that fell back is there behind its notice, but where the loss rate made it fall back.
  abbrev pub Reaches :
      HttpSse Channel → HttpSse Channel → ℕ → String → TelemetryEvent V → DeliveryStatus → Type 0
  Reaches old new ts run event delivered = ⊥
  Reaches old new ts run event sent = new ≡ with_event old run event
  Reaches old new ts run event dropped = (new ≡ old) ⊎ (new ≡ with_event old run event)
  Reaches old new ts run event (fell_back reason) =
      (new ≡ with_notice old ts run event reason)
      ⊎ (reason ≡ "loss_threshold_exceeded") × ((new ≡ old) ⊎ (new ≡ with_event old run event))

  lose_event-Accounts :
      (s : QuicDatagrams F64 Channel)
      → Accounts s (lose_event float bonus s).0 (lose_event float bonus s).1
  unfolding lose_event record_loss_sample
  lose_event-Accounts s = ground arith

  pub lose_event-fallback :
      (s : QuicDatagrams F64 Channel)
      → ((lose_event float bonus s).0.fallback ≡ s.fallback)
        × (((lose_event float bonus s).1 ≡ dropped)
            ⊎ ((lose_event float bonus s).1 ≡ fell_back "loss_threshold_exceeded"))
        × ((lose_event float bonus s).0.sent_count ≡ s.sent_count)
  unfolding lose_event record_loss_sample
  lose_event-fallback s = ground arith

  module _ (ts : ℕ) (run : String) (event : TelemetryEvent V) where
    finish_send-Accounts :
        (outcome : Result TransportError (Unit {0})) (s : QuicDatagrams F64 Channel)
        → let r = finish_send float bonus bus reason_value outcome s ts run event in
          Accounts s r.0 r.1
    unfolding finish_send pass_on route_to_sse record_loss_sample
    finish_send-Accounts outcome s =
        ground (arith, lose_event-Accounts (pass_on bus reason_value s run event))

    finish_send-Reaches :
        (outcome : Result TransportError (Unit {0})) (s : QuicDatagrams F64 Channel)
        → let r = finish_send float bonus bus reason_value outcome s ts run event in
          Reaches s.fallback r.0.fallback ts run event r.1
    unfolding finish_send pass_on route_to_sse record_loss_sample
    finish_send-Reaches outcome s =
        ground (arith, lose_event-fallback (pass_on bus reason_value s run event))

    module _ (over : Bytes → Result TransportError (Unit {0})) where
      send_serialized-Accounts :
          (serialized : Result TransportError (Bytes × Bool)) (s : QuicDatagrams F64 Channel)
          → let r = send_serialized float bonus bus reason_value serialized over s ts run event in
            Accounts s r.0 r.1
      unfolding send_serialized pass_on route_to_sse record_loss_sample
      send_serialized-Accounts (err e) s = ground arith
      send_serialized-Accounts (ok (bytes, truncated)) s =
          ground (arith, finish_send-Accounts (over bytes) s)

      send_serialized-Reaches :
          (serialized : Result TransportError (Bytes × Bool)) (s : QuicDatagrams F64 Channel)
          → let r = send_serialized float bonus bus reason_value serialized over s ts run event in
            Reaches s.fallback r.0.fallback ts run event r.1
      unfolding send_serialized pass_on route_to_sse record_loss_sample
      send_serialized-Reaches (err e) s = ground arith
      send_serialized-Reaches (ok (bytes, truncated)) s =
          ground (arith, finish_send-Reaches (over bytes) s)

  module _ (codec : Codec (TelemetryEvent V)) (summary : V)
      (get_bool : V → String → Option Bool) where
    module _ (over : Bytes → Result TransportError (Unit {0})) (s : QuicDatagrams F64 Channel)
        (ts : ℕ) (run : String) (event : TelemetryEvent V) where
      route_event-Accounts :
          let r =
            route_event float bonus bus reason_value codec summary get_bool over s ts run event in
          Accounts s r.0 r.1 × Reaches s.fallback r.0.fallback ts run event r.1
      unfolding route_event route_to_sse pass_on record_loss_sample
      route_event-Accounts =
          let serialized = serialize_event_for_datagram codec summary s event in
          ground (
            arith,
            lose_event-Accounts s,
            lose_event-fallback s,
            send_serialized-Accounts ts run event over serialized s,
            send_serialized-Reaches ts run event over serialized s,
          )

    module _ (enabled : Bool) (connection : Result TransportError (Option ℕ))
        (send_datagram : Bytes → Result String (Unit {0})) where
      -- Whatever the connection and the codec do, from a loss window of at most `loss_window_size`
      -- samples on, `send_event` of the datagrams gives a status and no error. One more event is
      -- counted as sent, and the loss window is again no longer than `loss_window_size`. The
      -- counters of dropped events and of fallbacks move as `Accounts` says for that status, and
      -- the fan-out gets the event as `Reaches` says: an event that was sent is there too, and one
      -- that fell back is there behind its notice, but where the loss rate made it fall back.
      pub send_event-Accounts :
          (s : QuicDatagrams F64 Channel) (ts : ℕ) (run : String) (event : TelemetryEvent V)
          → IsWindowed s
          → let r =
              send_event float bonus bus reason_value codec summary get_bool enabled connection
                send_datagram s ts run event in
            (status : DeliveryStatus) × (r.1 ≡ ok status)
            × (r.0.sent_count ≡ s.sent_count + 1)
            × IsWindowed r.0
            × Accounts s r.0 status
            × Reaches s.fallback r.0.fallback ts run event status
      unfolding send_event
      send_event-Accounts s ts run event windowed =
          let counted = record s { sent_count = s.sent_count + 1 } in
          let over = over_datagram enabled connection send_datagram in
          (
            (route_event float bonus bus reason_value codec summary get_bool over counted ts run
                event).1,
            refl,
            (route_event-IsWindowed float bonus bus reason_value codec summary get_bool over counted
                ts run event windowed).0,
            (route_event-IsWindowed float bonus bus reason_value codec summary get_bool over counted
                ts run event windowed).1,
            (route_event-Accounts over counted ts run event).0,
            (route_event-Accounts over counted ts run event).1,
          )
