-- ===== src/Telemetry/Datagrams.antt =====
-- The transport of crates/sc-transport-datagrams/src/lib.rs: an event goes as one QUIC datagram, and the
-- window of the last outcomes says when the loss is too high. The connection, JSON and the numbers of
-- `f64` are parameters.
pub mod Send
pub mod Laws
pub mod Sent
pub mod Window
pub mod Windowed
use sc_transport.Base.{
  ℕ, ◌+◌, ◌%◌, String, Bool, true, false, ◌&&◌, Option, none, some, List, [], ◌∷◌, ◌++◌, length,
  filter, ltb, leb, ◌==◌, min, if◌then◌else◌, Result, ok, err, saturating_sub, drop, ◌>>=◌,
}
use sc_transport.Base.Bytes.{Bytes}
use sc_transport.Base.Float.{Float, clamp}
use sc_transport.Wire.Codec.{Codec}
use sc_transport.Telemetry.{
  EventType, progress, transport_fallback, TelemetryEvent, DeliveryStatus, sent, dropped, fell_back,
  TransportError, fallback_required, quic_error, serialization, unavailable, TransportMetrics,
}
use sc_transport.Telemetry.Frames.{to_vec}
use sc_transport.Telemetry.Sse
use sc_transport.Telemetry.Sse.{Broadcast, HttpSse, new_sse}
use sc_transport.Telemetry.Streams.{is_progress}

-- `F` is `f64`. The server's address is left out.
pub record QuicDatagramConfig (F : Type 0) : Type 0 where
  pub max_datagram_bytes : ℕ
  pub preferred_datagram_bytes : ℕ
  pub loss_fallback_threshold : F
  pub loss_window_size : ℕ

-- `C` is the type of the fan-out's channels.
pub record QuicDatagrams (F C : Type 0) : Type 0 where
  pub fallback : HttpSse C
  pub sent_count : ℕ
  pub dropped_count : ℕ
  pub fallback_count : ℕ
  pub loss_window : List Bool
  pub fallback_threshold : F
  pub loss_window_size : ℕ
  pub max_datagram_size : ℕ
  pub preferred_datagram_size : ℕ
  pub progress_drop_every : ℕ

abbrev pub default_datagram_config : (float : Float) → QuicDatagramConfig float.F64
default_datagram_config float = record {
  max_datagram_bytes = 1200;
  preferred_datagram_bytes = 900;
  loss_fallback_threshold = float.decimal 15 2;
  loss_window_size = 100;
}

abbrev pub dgram_safe_mtu : ℕ
dgram_safe_mtu = 1200

abbrev pub unwrap_or : {A : Type 0} → Option A → A → A
unwrap_or none a = a
unwrap_or (some b) a = b

-- The options are variables of the environment that are there and can be parsed.
unfoldable pub with_config :
    {F C : Type 0}
    → Option ℕ
    → Option ℕ
    → Option F
    → Option ℕ
    → QuicDatagramConfig F
    → QuicDatagrams F C
with_config max_bytes preferred_bytes threshold drop_every config =
    let max_datagram_size = unwrap_or max_bytes config.max_datagram_bytes in
    record {
      fallback = new_sse;
      sent_count = 0;
      dropped_count = 0;
      fallback_count = 0;
      loss_window = [];
      fallback_threshold = unwrap_or threshold config.loss_fallback_threshold;
      loss_window_size = config.loss_window_size;
      max_datagram_size = max_datagram_size;
      preferred_datagram_size =
          min (unwrap_or preferred_bytes config.preferred_datagram_bytes) max_datagram_size;
      progress_drop_every = unwrap_or drop_every 0;
    }

unfoldable pub record_loss_sample : {F C : Type 0} → QuicDatagrams F C → Bool → QuicDatagrams F C
record_loss_sample s delivered =
    let window = s.loss_window ++ (delivered ∷ []) in
    record s {
      loss_window = if ltb s.loss_window_size (length window) then drop 1 window else window;
    }

unfoldable pub should_drop_for_rate_limit :
    {F C V : Type 0} → QuicDatagrams F C → TelemetryEvent V → Bool
should_drop_for_rate_limit s event =
    let n = s.progress_drop_every in
    ltb 0 n && is_progress event.event_type && s.sent_count % n == saturating_sub n 1

unfoldable pub metrics : {F C : Type 0} → QuicDatagrams F C → TransportMetrics
metrics s = record (Sse.metrics s.fallback) {
  current_mode = "quic-datagram";
  events_sent = s.sent_count;
  events_dropped = s.dropped_count;
  fallback_count = s.fallback_count;
}

module _ {V : Type 0} (get_bool : V → String → Option Bool) where
  -- `get_bool` is `get`, and `as_bool` of what is found.
  unfoldable pub should_force_fallback : TelemetryEvent V → Bool
  should_force_fallback event = unwrap_or (get_bool event.payload "force_fallback") false

  unfoldable pub is_simulated_loss_event : TelemetryEvent V → Bool
  is_simulated_loss_event event = unwrap_or (get_bool event.payload "simulated_loss") false

module _ (float : Float) (bonus : Option float.F64) where
  open float use {F64}

  -- `bonus` is SC_DGRAM_THRESHOLD_BONUS.
  unfoldable pub effective_fallback_threshold : {C : Type 0} → QuicDatagrams F64 C → F64
  effective_fallback_threshold s =
      let raised = float.add s.fallback_threshold (unwrap_or bonus (float.decimal 5 2)) in
      clamp float raised (float.decimal 5 2) (float.decimal 9 1)

  unfoldable pub should_trigger_fallback_by_loss : {C : Type 0} → QuicDatagrams F64 C → Bool
  should_trigger_fallback_by_loss s =
      let window = s.loss_window in
      let delivered = float.of_ℕ (length (filter (λ v. v) window)) in
      let loss_rate =
        float.sub (float.decimal 1 0) (float.div delivered (float.of_ℕ (length window))) in
      if ltb (length window) 10 then false else float.lt (effective_fallback_threshold s) loss_rate

-- `summary` is the payload of a truncated event.
module _ {V : Type 0} (codec : Codec (TelemetryEvent V)) (summary : V) where
  -- the bytes, and whether the event was truncated
  unfoldable pub serialize_event_for_datagram :
      {F C : Type 0} → QuicDatagrams F C → TelemetryEvent V → Result TransportError (Bytes × Bool)
  serialize_event_for_datagram s event = do
    original ← to_vec codec event
    let truncated_event = record event { payload = summary }
    if leb (length original) s.max_datagram_size
        then ok (original, false)
        else (to_vec codec truncated_event >>= λ truncated.
            if leb (length truncated) s.max_datagram_size
            then ok (truncated, true)
            else err (unavailable "datagram too large even after truncation"))

-- `connection` is the size of the peer's datagrams, if it takes any, or the error of the connection.
unfoldable pub send_event_over_datagram :
    Result TransportError (Option ℕ)
    → (Bytes → Result String (Unit {0}))
    → Bytes
    → Result TransportError (Unit {0})
send_event_over_datagram connection send_datagram payload =
    let handed : Result TransportError (Unit {0}) = elim (send_datagram payload) [
      | ok _ ↦ ok tt
      | err e ↦ err quic_error
    ] in
    if ltb dgram_safe_mtu (length payload)
    then err fallback_required
    else (connection >>= λ max_datagram_size. elim max_datagram_size [
      | none ↦ err fallback_required
      | some peer_cap ↦ if ltb peer_cap (length payload) then err fallback_required else handed
    ])
