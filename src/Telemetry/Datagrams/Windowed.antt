-- ===== src/Telemetry/Datagrams/Windowed.antt =====
-- An event as a datagram leaves the loss window no longer than it may be.
use sc_transport.Base.{ℕ, ◌≡◌, arith, String, Bool, true, false, Option, Result, ok, err}
use sc_transport.Base.Bytes.{Bytes}
use sc_transport.Base.Float.{Float}
use sc_transport.Wire.Codec.{Codec}
use sc_transport.Telemetry.{TelemetryEvent, TransportError}
use sc_transport.Telemetry.Sse.{Broadcast}
use sc_transport.Telemetry.Datagrams.{
  QuicDatagrams, record_loss_sample, serialize_event_for_datagram,
}
use sc_transport.Telemetry.Datagrams.Window.{IsWindowed, record_loss_sample-IsWindowed}
use sc_transport.Telemetry.Datagrams.Send.{
  lose_event, pass_on, route_to_sse, finish_send, send_serialized, route_event,
}

record_loss_sample_kept :
    {F C : Type 0} (s : QuicDatagrams F C) (x : Bool)
    → ((record_loss_sample s x).sent_count ≡ s.sent_count)
      × ((record_loss_sample s x).loss_window_size ≡ s.loss_window_size)
unfolding record_loss_sample
record_loss_sample_kept s x = ground arith

module _ {V : Type 0} (float : Float) (bonus : Option float.F64)
    (bus : Broadcast (TelemetryEvent V)) (reason_value : String → V) where
  open float use {F64}
  open bus use {Channel}

  -- The number of sent events is kept, and the window is as long as it may be.
  abbrev StaysWindowed : QuicDatagrams F64 Channel → QuicDatagrams F64 Channel → Type 0
  StaysWindowed s t = (t.sent_count ≡ s.sent_count) × IsWindowed t

  lose_event-IsWindowed :
      (s : QuicDatagrams F64 Channel) → IsWindowed s → StaysWindowed s (lose_event float bonus s).0
  unfolding lose_event
  lose_event-IsWindowed s h =
      let sampled = record_loss_sample_kept s false in
      ground (arith, record_loss_sample-IsWindowed s false h, sampled)

  module _ (ts : ℕ) (run : String) (event : TelemetryEvent V) where
    finish_send-IsWindowed :
        (outcome : Result TransportError (Unit {0})) (s : QuicDatagrams F64 Channel)
        → IsWindowed s
        → StaysWindowed s (finish_send float bonus bus reason_value outcome s ts run event).0
    unfolding finish_send pass_on route_to_sse
    finish_send-IsWindowed outcome s h = ground (
      arith,
      record_loss_sample-IsWindowed s true h,
      record_loss_sample_kept s true,
      lose_event-IsWindowed (pass_on bus reason_value s run event) h,
    )

    send_serialized-IsWindowed :
        (over : Bytes → Result TransportError (Unit {0}))
        (serialized : Result TransportError (Bytes × Bool)) (s : QuicDatagrams F64 Channel)
        → IsWindowed s
        → StaysWindowed s
            (send_serialized float bonus bus reason_value serialized over s ts run event).0
    unfolding send_serialized pass_on route_to_sse
    send_serialized-IsWindowed over (err e) s h =
        ground (arith, record_loss_sample-IsWindowed s false h, record_loss_sample_kept s false)
    send_serialized-IsWindowed over (ok (bytes, truncated)) s h =
        ground (arith, finish_send-IsWindowed (over bytes) s h)

  module _ (codec : Codec (TelemetryEvent V)) (summary : V)
      (get_bool : V → String → Option Bool) where
    module _ (over : Bytes → Result TransportError (Unit {0})) (s : QuicDatagrams F64 Channel)
        (ts : ℕ) (run : String) (event : TelemetryEvent V) where
      pub route_event-IsWindowed :
          IsWindowed s
          → StaysWindowed s
              (route_event float bonus bus reason_value codec summary get_bool over s ts run
                event).0
      unfolding route_event route_to_sse pass_on
      route_event-IsWindowed h =
          let serialized = serialize_event_for_datagram codec summary s event in
          ground (
            arith,
            record_loss_sample-IsWindowed s false h,
            record_loss_sample_kept s false,
            lose_event-IsWindowed s h,
            send_serialized-IsWindowed ts run event over serialized s h,
          )
