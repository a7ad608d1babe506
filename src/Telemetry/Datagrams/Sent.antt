-- ===== src/Telemetry/Datagrams/Sent.antt =====
-- An event that is reported as sent went out as a datagram.
use sc_transport.Base.{
  ℕ, ◌+◌, ◌≤◌, ◌≡◌, refl, arith, String, Bool, Option, some, length, Result, ok, err,
}
use sc_transport.Base.Bytes.{Bytes}
use sc_transport.Base.Float.{Float}
use sc_transport.Wire.Codec.{Codec}
use sc_transport.Telemetry.{TelemetryEvent, sent, TransportError}
use sc_transport.Telemetry.Sse.{Broadcast}
use sc_transport.Telemetry.Datagrams.{
  QuicDatagrams, serialize_event_for_datagram, send_event_over_datagram, dgram_safe_mtu,
}
use sc_transport.Telemetry.Datagrams.Send.{
  pass_on, route_to_sse, finish_send, send_serialized, over_datagram, route_event, send_event,
}
use sc_transport.Telemetry.Datagrams.Laws.{lose_event-fallback}

module _ {V : Type 0} (float : Float) (bonus : Option float.F64)
    (bus : Broadcast (TelemetryEvent V)) (reason_value : String → V) where
  open float use {F64}
  open bus use {Channel}

  module _ (ts : ℕ) (run : String) (event : TelemetryEvent V)
      (over : Bytes → Result TransportError (Unit {0})) where
    -- An event that is reported as sent went as a datagram of the preferred size.
    send_serialized-sent :
        (serialized : Result TransportError (Bytes × Bool)) (s : QuicDatagrams F64 Channel)
        → (send_serialized float bonus bus reason_value serialized over s ts run event).1 ≡ sent
        → (bytes : Bytes) × (truncated : Bool) × (serialized ≡ ok (bytes, truncated))
          × (length bytes ≤ s.preferred_datagram_size)
          × (over bytes ≡ ok tt)
    unfolding send_serialized finish_send route_to_sse
    send_serialized-sent (err e) s h = ground arith
    send_serialized-sent (ok (bytes, truncated)) s h =
        let lost =
          lose_event-fallback float bonus bus reason_value (pass_on bus reason_value s run event) in
        (bytes, truncated, refl, ground (arith, lost), ground (arith, lost))

  module _ (codec : Codec (TelemetryEvent V)) (summary : V)
      (get_bool : V → String → Option Bool) where
    module _ (over : Bytes → Result TransportError (Unit {0})) (s : QuicDatagrams F64 Channel)
        (ts : ℕ) (run : String) (event : TelemetryEvent V) where
      route_event-sent :
          (route_event float bonus bus reason_value codec summary get_bool over s ts run event).1
            ≡ sent
          → (bytes : Bytes) × (truncated : Bool) × (serialize_event_for_datagram codec summary s
                event
              ≡ ok (bytes, truncated))
            × (length bytes ≤ s.preferred_datagram_size)
            × (over bytes ≡ ok tt)
      unfolding route_event route_to_sse
      route_event-sent h =
          let serialized = serialize_event_for_datagram codec summary s event in
          send_serialized-sent ts run event over serialized s
            (ground (arith, h, lose_event-fallback float bonus bus reason_value s))

    over_datagram-eq-ok :
        (enabled : Bool) (connection : Result TransportError (Option ℕ))
        (send_datagram : Bytes → Result String (Unit {0})) (bytes : Bytes)
        → over_datagram enabled connection send_datagram bytes ≡ ok tt
        → (peer_cap : ℕ) × (length bytes ≤ dgram_safe_mtu)
          × (connection ≡ ok (some peer_cap))
          × (length bytes ≤ peer_cap)
          × (send_datagram bytes ≡ ok tt)
    unfolding over_datagram send_event_over_datagram
    over_datagram-eq-ok enabled connection send_datagram bytes h = ground arith

    module _ (enabled : Bool) (connection : Result TransportError (Option ℕ))
        (send_datagram : Bytes → Result String (Unit {0})) where
      -- If `send_event` of the datagrams says that an event was sent, the bytes that it was
      -- serialized to are no more than the preferred size, than 1200 and than the peer takes, and
      -- the connection has taken them.
      pub send_event-sent :
          (s : QuicDatagrams F64 Channel) (ts : ℕ) (run : String) (event : TelemetryEvent V)
          → (send_event float bonus bus reason_value codec summary get_bool enabled connection
              send_datagram s ts run event).1
            ≡ ok sent
          → (bytes : Bytes) × (truncated : Bool) × (peer_cap : ℕ) × (serialize_event_for_datagram
                codec summary s event
              ≡ ok (bytes, truncated))
            × (length bytes ≤ s.preferred_datagram_size)
            × (length bytes ≤ dgram_safe_mtu)
            × (connection ≡ ok (some peer_cap))
            × (length bytes ≤ peer_cap)
            × (send_datagram bytes ≡ ok tt)
      unfolding send_event serialize_event_for_datagram
      send_event-sent s ts run event h =
          let counted = record s { sent_count = s.sent_count + 1 } in
          let over = over_datagram enabled connection send_datagram in
          let (bytes, truncated, made, small, went) =
            route_event-sent over counted ts run event (ground (arith, h)) in
          let (peer_cap, safe, connected, taken, handed) =
            over_datagram-eq-ok enabled connection send_datagram bytes went in
          (bytes, truncated, peer_cap, made, small, safe, connected, taken, handed)
