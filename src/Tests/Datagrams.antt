-- ===== src/Tests/Datagrams.antt =====
-- Events as datagrams, and a batch of them.
use sc_transport.Base.{
  ℕ, ◌+◌, ◌*◌, ◌-◌, ◌/◌, ◌^◌, ◌≤◌, ◌≡◌, refl, arith, String, Bool, true, false, Option, none, some,
  List, [], ◌∷◌, length, drop, ltb, leb, max, min, Result, ok,
}
use sc_transport.Base.Bytes.{Bytes}
use sc_transport.Base.Float.{Float}
use sc_transport.Telemetry.{
  progress, task_started, TelemetryEvent, TransportError, DeliveryStatus, sent,
}
use sc_transport.Telemetry.Frames.{to_vec}
use sc_transport.Telemetry.Sse.{new_sse}
use sc_transport.Telemetry.Datagrams.{
  QuicDatagrams, serialize_event_for_datagram, dgram_safe_mtu, record_loss_sample,
  should_force_fallback, is_simulated_loss_event, should_drop_for_rate_limit,
  send_event_over_datagram,
}
use sc_transport.Telemetry.Datagrams.Send.{
  send_event, route_event, over_datagram, send_serialized, finish_send, pass_on, lose_event,
}
use sc_transport.Telemetry.Datagrams.Laws.{Accounts, Reaches, send_event-Accounts}
use sc_transport.Telemetry.Datagrams.Sent.{send_event-sent}
use sc_transport.Telemetry.Datagrams.Window.{
  IsWindowed, record_loss_samples, loss_window-record_loss_samples,
}
use sc_transport.Telemetry.Batch.{BatchSender, Fate}
use sc_transport.Tests.Telemetry.{event_at, toy_events, toy_bus}

-- Thousandths in place of `f64`.
abbrev pub toy_float : Float
toy_float = record {
  F64 = ℕ;
  decimal = λ n k. n * 1000 / 10 ^ k;
  of_ℕ = λ n. n * 1000;
  add = λ a b. a + b;
  sub = λ a b. a - b;
  mul = λ a b. a * b / 1000;
  div = λ a b. a * 1000 / b;
  lt = ltb;
  le = leb;
  max = max;
  min = min;
  abs = λ a. a;
  sqrt = λ a. a;
  powf = λ a b. a;
  round = λ a. (a + 500) / 1000 * 1000;
  ceil = λ a. (a + 999) / 1000 * 1000;
  to_ℕ = λ a. a / 1000;
  as_secs_f64 = λ d. d / 1_000_000;
  from_secs_f64 = λ s. s * 1_000_000;
}

abbrev no_flag : ℕ → String → Option Bool
no_flag payload name = none

abbrev datagrams : QuicDatagrams ℕ (Bool × List (TelemetryEvent ℕ))
datagrams = record {
  fallback = new_sse;
  sent_count = 3;
  dropped_count = 1;
  fallback_count = 0;
  loss_window = true ∷ false ∷ [];
  fallback_threshold = 150;
  loss_window_size = 3;
  max_datagram_size = 1200;
  preferred_datagram_size = 900;
  progress_drop_every = 5;
}

-- a task that is started, and progress where the rate limit drops it
abbrev task : TelemetryEvent ℕ
task = event_at task_started 2 20

abbrev late : TelemetryEvent ℕ
late = event_at progress 2 20

abbrev took : Bytes → Result String (Unit {0})
took bytes = ok tt

-- the run of the whole `send_event`, for the tests
sending : Unit {0}
unfolding send_event route_event over_datagram send_serialized finish_send pass_on
    serialize_event_for_datagram should_force_fallback is_simulated_loss_event
    should_drop_for_rate_limit send_event_over_datagram record_loss_sample to_vec lose_event
sending = tt

task_went :
    (send_event toy_float none toy_bus
      (λ reason. 0)
      toy_events
      0
      no_flag
      true
      (ok (some 1000))
      took
      datagrams
      9
      "r"
      task).1
    ≡ ok sent
unfolding sending
task_went = refl

send_event-sent_example :
    (bytes : Bytes) × (truncated : Bool) × (peer_cap : ℕ) × (serialize_event_for_datagram toy_events
        0 datagrams task
      ≡ ok (bytes, truncated))
    × (length bytes ≤ 900)
    × (length bytes ≤ dgram_safe_mtu)
    × (◌≡◌ {A = Result TransportError (Option ℕ)} (ok (some 1000)) (ok (some peer_cap)))
    × (length bytes ≤ peer_cap)
    × (took bytes ≡ ok tt)
send_event-sent_example =
    send_event-sent toy_float none toy_bus (λ reason. 0) toy_events 0 no_flag true (ok (some 1000))
      took datagrams 9 "r" task task_went

send_event-Accounts_example :
    let r =
      send_event toy_float none toy_bus
        (λ reason. 0)
        toy_events
        0
        no_flag
        true
        (ok (some 1000))
        took
        datagrams
        9
        "r"
        task in
    (status : DeliveryStatus) × (r.1 ≡ ok status)
    × (r.0.sent_count ≡ 3 + 1)
    × IsWindowed r.0
    × Accounts datagrams r.0 status
    × Reaches toy_float none toy_bus (λ reason. 0) new_sse r.0.fallback 9 "r" task status
send_event-Accounts_example =
    send_event-Accounts toy_float none toy_bus (λ reason. 0) toy_events 0 no_flag true
      (ok (some 1000)) took datagrams 9 "r" task (omega arith)

loss_window-record_loss_samples_example :
    (record_loss_samples datagrams (false ∷ false ∷ [])).loss_window
    ≡ drop (2 + 2 - 3) (true ∷ false ∷ false ∷ false ∷ [])
loss_window-record_loss_samples_example =
    loss_window-record_loss_samples datagrams (false ∷ false ∷ []) (omega arith)

abbrev fine : ℕ → Fate
fine i = record { opens = true; takes = λ bytes. true; joins = true }

abbrev batch : List (TelemetryEvent ℕ)
batch = event_at progress 1 1 ∷ event_at progress 2 2 ∷ event_at progress 3 3 ∷ []

abbrev pairs : BatchSender
pairs = record { max_parallel_streams = 2; chunk_size = 2 }
