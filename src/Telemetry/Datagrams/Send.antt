-- ===== src/Telemetry/Datagrams/Send.antt =====
-- The whole `send_event` of crates/sc-transport-datagrams/src/lib.rs.
use sc_transport.Base.{
  ℕ, ◌+◌, String, Bool, true, false, ◌||◌, Option, length, ltb, if◌then◌else◌, Result, ok, err,
}
use sc_transport.Base.Bytes.{Bytes}
use sc_transport.Base.Float.{Float}
use sc_transport.Wire.Codec.{Codec}
use sc_transport.Telemetry.{
  TelemetryEvent, DeliveryStatus, sent, dropped, fell_back, TransportError, fallback_required,
  quic_error,
}
use sc_transport.Telemetry.Sse
use sc_transport.Telemetry.Sse.{Broadcast, HttpSse}
use sc_transport.Telemetry.Streams.{fallback_event}
use sc_transport.Telemetry.Datagrams.{
  QuicDatagrams, record_loss_sample, should_drop_for_rate_limit, should_force_fallback,
  is_simulated_loss_event, should_trigger_fallback_by_loss, serialize_event_for_datagram,
  send_event_over_datagram,
}

-- A lost event: the sample, the count, and what the loss rate then says.
module _ (float : Float) (bonus : Option float.F64) where
  open float use {F64}

  unfoldable pub lose_event :
      {C : Type 0} → QuicDatagrams F64 C → QuicDatagrams F64 C × DeliveryStatus
  lose_event s =
      let sampled = record_loss_sample s false in
      let counted = record sampled { dropped_count = s.dropped_count + 1 } in
      if should_trigger_fallback_by_loss float bonus counted
      then (
        record counted { fallback_count = s.fallback_count + 1 },
        fell_back "loss_threshold_exceeded",
      )
      else (counted, dropped)

module _ {V F : Type 0} (bus : Broadcast (TelemetryEvent V)) (reason_value : String → V) where
  open bus use {Channel}

  -- An event to the fan-out, whose answer is left aside.
  unfoldable pub pass_on :
      QuicDatagrams F Channel → String → TelemetryEvent V → QuicDatagrams F Channel
  pass_on s run_id event = record s { fallback = (Sse.send_event bus s.fallback run_id event).0 }

  -- The notice of the fallback goes first. `ts` is the time of the clock.
  unfoldable pub route_to_sse :
      QuicDatagrams F Channel
      → ℕ
      → String
      → TelemetryEvent V
      → String
      → QuicDatagrams F Channel × DeliveryStatus
  route_to_sse s ts run_id event reason =
      let told = pass_on s run_id (fallback_event bus reason_value ts run_id reason) in
      (pass_on told run_id event, fell_back reason)

-- `enabled` is the feature `quic-datagrams`: without it no datagram goes out.
unfoldable pub over_datagram :
    Bool
    → Result TransportError (Option ℕ)
    → (Bytes → Result String (Unit {0}))
    → Bytes
    → Result TransportError (Unit {0})
over_datagram enabled connection send_datagram bytes =
    if enabled then send_event_over_datagram connection send_datagram bytes else err quic_error

module _ {V : Type 0} (float : Float) (bonus : Option float.F64)
    (bus : Broadcast (TelemetryEvent V)) (reason_value : String → V) where
  open float use {F64}
  open bus use {Channel}

  -- what is made of the outcome of the datagram
  unfoldable pub finish_send :
      Result TransportError (Unit {0})
      → QuicDatagrams F64 Channel
      → ℕ
      → String
      → TelemetryEvent V
      → QuicDatagrams F64 Channel × DeliveryStatus
  finish_send (ok _) s ts run_id event =
      (pass_on bus reason_value (record_loss_sample s true) run_id event, sent)
  finish_send (err fallback_required) s ts run_id event =
      route_to_sse bus reason_value s ts run_id event "datagram_policy_route_to_sse"
  finish_send (err e) s ts run_id event =
      lose_event float bonus (pass_on bus reason_value s run_id event)

  -- the send of what an event was serialized to
  unfoldable pub send_serialized :
      Result TransportError (Bytes × Bool)
      → (Bytes → Result TransportError (Unit {0}))
      → QuicDatagrams F64 Channel
      → ℕ
      → String
      → TelemetryEvent V
      → QuicDatagrams F64 Channel × DeliveryStatus
  send_serialized (err e) over_datagram s ts run_id event =
      (record (record_loss_sample s false) { dropped_count = s.dropped_count + 1 }, dropped)
  send_serialized (ok (bytes, truncated)) over_datagram s ts run_id event =
      let counted = record s { fallback_count = s.fallback_count + 1 } in
      if ltb s.preferred_datagram_size (length bytes)
      then route_to_sse bus reason_value counted ts run_id event
          "payload_over_preferred_datagram_size"
      else finish_send (over_datagram bytes) s ts run_id event

  module _ (codec : Codec (TelemetryEvent V)) (summary : V)
      (get_bool : V → String → Option Bool) where
    -- the way of an event that is counted
    unfoldable pub route_event :
        (Bytes → Result TransportError (Unit {0}))
        → QuicDatagrams F64 Channel
        → ℕ
        → String
        → TelemetryEvent V
        → QuicDatagrams F64 Channel × DeliveryStatus
    route_event over s ts run_id event =
        let forced = record (record_loss_sample s false) {
          fallback_count = s.fallback_count + 1;
        } in
        if should_force_fallback get_bool event
        then route_to_sse bus reason_value forced ts run_id event "forced_by_event_payload"
        else (if is_simulated_loss_event get_bool event || should_drop_for_rate_limit s event
            then lose_event float bonus s
            else send_serialized (serialize_event_for_datagram codec summary s event) over s ts
                run_id event)

    unfoldable pub send_event :
        Bool
        → Result TransportError (Option ℕ)
        → (Bytes → Result String (Unit {0}))
        → QuicDatagrams F64 Channel
        → ℕ
        → String
        → TelemetryEvent V
        → QuicDatagrams F64 Channel × Result TransportError DeliveryStatus
    send_event enabled connection send_datagram s ts run_id event =
        let counted = record s { sent_count = s.sent_count + 1 } in
        let (t, status) =
          route_event (over_datagram enabled connection send_datagram) counted ts run_id event in
        (t, ok status)
