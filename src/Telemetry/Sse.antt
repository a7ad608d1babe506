-- ===== src/Telemetry/Sse.antt =====
-- crates/sc-transport-sse/src/lib.rs: the fan-out of events to the subscribers of a run. A `broadcast`
-- channel of tokio is a parameter.
pub mod Laws
use sc_transport.Base.{
  ℕ, zero, suc, ◌+◌, ◌-◌, ◌^◌, ◌%◌, String, Bool, true, false, Option, none, some, List, [], ◌∷◌,
  Result, ok, err,
}
use sc_transport.Base.StringMap
use sc_transport.Base.StringMap.{StringMap}
use sc_transport.Telemetry.{
  DeliveryStatus, sent, delivered, TransportError, io_failed, TransportMetrics,
}

-- `tokio::sync::broadcast`
pub record Broadcast (E : Type 0) : Type 1 where
  pub Channel : Type 0
  -- `broadcast::channel(1024)`, whose first receiver is dropped
  pub channel : Channel
  -- `tx.send(event)`; `none` is the error that no receiver is left
  pub send : Channel → E → Option Channel
  -- `tx.subscribe()`
  pub subscribe : Channel → Channel

pub record HttpSse (C : Type 0) : Type 0 where
  pub channels : StringMap C
  pub events_sent : ℕ
  pub events_delivered : ℕ
  pub events_dropped : ℕ
  pub fallback_count : ℕ
  pub active_subscribers : ℕ

abbrev pub new_sse : {C : Type 0} → HttpSse C
new_sse = record {
  channels = [];
  events_sent = 0;
  events_delivered = 0;
  events_dropped = 0;
  fallback_count = 0;
  active_subscribers = 0;
}

unfoldable pub supports_unreliable : Bool
supports_unreliable = false

unfoldable pub metrics : {C : Type 0} → HttpSse C → TransportMetrics
metrics s = record {
  events_sent = s.events_sent;
  events_delivered = s.events_delivered;
  events_dropped = s.events_dropped;
  fallback_count = s.fallback_count;
  current_mode = "sse";
  active_subscribers = s.active_subscribers;
}

-- the end of the task of a subscription; `fetch_sub` wraps round
unfoldable pub end_subscription : {C : Type 0} → HttpSse C → HttpSse C
end_subscription s = record s { active_subscribers = (s.active_subscribers + 2 ^ 64 - 1) % 2 ^ 64 }

-- What the task of a subscription hands to its client, who takes `room` more items and then goes:
-- `none` among the received is that the channel is closed or that the receiver lags behind.
unfoldable pub forward : {E : Type 0} → List (Option E) → ℕ → List (Result TransportError E)
forward [] room = []
forward (r ∷ received) zero = []
forward (some event ∷ received) (suc room) = ok event ∷ forward received room
forward (none ∷ received) (suc room) = err io_failed ∷ []

module _ {E : Type 0} (bus : Broadcast E) where
  open bus use {Channel}

  -- the channel of a run, made if it is not there
  unfoldable pub channel_for_run : HttpSse Channel → String → HttpSse Channel × Channel
  channel_for_run s run_id = elim (StringMap.get s.channels run_id) [
    | none ↦ (record s { channels = StringMap.put s.channels run_id bus.channel }, bus.channel)
    | some tx ↦ (s, tx)
  ]

  unfoldable pub send_event : HttpSse Channel → String → E → HttpSse Channel × DeliveryStatus
  send_event s run_id event =
      let (s', tx) = channel_for_run s run_id in
      elim (bus.send tx event) [
        | none ↦ (record s' { events_sent = s'.events_sent + 1 }, sent)
        | some tx' ↦ (
          record s' {
            channels = StringMap.put s'.channels run_id tx';
            events_sent = s'.events_sent + 1;
            events_delivered = s'.events_delivered + 1;
          },
          delivered,
        )
      ]

  unfoldable pub subscribe : HttpSse Channel → String → HttpSse Channel
  subscribe s run_id =
      let (s', tx) = channel_for_run s run_id in
      record s' {
        channels = StringMap.put s'.channels run_id (bus.subscribe tx);
        active_subscribers = s'.active_subscribers + 1;
      }
