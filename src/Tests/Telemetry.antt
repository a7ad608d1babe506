-- ===== src/Tests/Telemetry.antt =====
-- Events on a toy codec, channel and connection.
use text.Mathlib.Text.{◌==◌}
use text.Mathlib.TextEquality.{eq_iff}
use sc_transport.Base.{
  ℕ, zero, suc, ◌<◌, ◌≡◌, refl, arith, String, Bool, true, false, Option, none, some, List, [], ◌∷◌,
  ◌++◌, length, if◌then◌else◌, Result, ok, err,
}
use sc_transport.Base.Bytes.{Bytes, to_be_bytes}
use sc_transport.Wire.Codec.{Codec}
use sc_transport.Telemetry.{EventType, progress, task_started, TelemetryEvent, panicked}
use sc_transport.Telemetry.Frames.{
  to_vec, frame_event, batch_body, frame_event_batch, read_framed_event, read_framed_events,
}
use sc_transport.Telemetry.Frames.RoundTrip.{IsFaithful}
use sc_transport.Telemetry.Frames.Reading.{
  read_framed_event-frame_event, read_framed_events-frame_event_batch,
  read_framed_event-frame_event_batch,
}
use sc_transport.Base.StringMap
use sc_transport.Telemetry.Sse.{Broadcast, HttpSse, new_sse, channel_for_run}
use sc_transport.Telemetry.Sse as Sse
use sc_transport.Telemetry.Sse.Laws.{Hears, send_events, events_of, send_events-subscribe}
use sc_transport.Telemetry.Streams.{QuicStreams, Connection, coalesce, is_progress, write_uni}
use sc_transport.Telemetry.Streams as Streams
use sc_transport.Telemetry.Streams.Laws.{IsCounted, send_event-IsCounted}
use sc_transport.Telemetry.Streams.Order.{coalesce_all, parse_all, parse_all-coalesce_all}

-- The time and the payload of some events of the run `r`.
abbrev pub event_at : EventType → ℕ → ℕ → TelemetryEvent ℕ
event_at type ts payload = record {
  run_id = "r";
  task_id = none;
  event_type = type;
  timestamp_ms = ts;
  payload = payload;
}

abbrev toy_encode_parts : EventType → Option String → ℕ → ℕ → Option Bytes
toy_encode_parts progress none ts payload = some (129 ∷ 0 ∷ ts ∷ payload ∷ [])
toy_encode_parts task_started none ts payload = some (129 ∷ 1 ∷ ts ∷ payload ∷ [])
toy_encode_parts _ _ ts payload = none

abbrev toy_encode_event : TelemetryEvent ℕ → Option Bytes
toy_encode_event e =
    if e.run_id == "r"
    then toy_encode_parts e.event_type e.task_id e.timestamp_ms e.payload
    else none

abbrev toy_decode_event : Bytes → Option (TelemetryEvent ℕ)
toy_decode_event (_ ∷ zero ∷ ts ∷ payload ∷ []) = some (event_at progress ts payload)
toy_decode_event (_ ∷ suc zero ∷ ts ∷ payload ∷ []) = some (event_at task_started ts payload)
toy_decode_event _ = none

abbrev pub toy_events : Codec (TelemetryEvent ℕ)
toy_events = record { encode = toy_encode_event; decode = toy_decode_event }

toy_decode_event-toy_encode_event :
    (e : TelemetryEvent ℕ) (raw : Bytes)
    → toy_encode_event e ≡ some raw
    → toy_decode_event raw ≡ some e
toy_decode_event-toy_encode_event e raw h = ground (arith, eq_iff e.run_id "r")

toy_encode_event_short :
    (e : TelemetryEvent ℕ) (raw : Bytes) → toy_encode_event e ≡ some raw → length raw ≡ 4
toy_encode_event_short e raw h = ground arith

toy_events-IsFaithful : IsFaithful toy_events
toy_events-IsFaithful = record {
  roundtrips = record { decode-encode = toy_decode_event-toy_encode_event };
  nonempty = λ e raw h. omega (arith, toy_encode_event_short e raw h);
  no_batch = λ e raw h. (let short = toy_encode_event_short e raw h in ground (arith, short));
}

abbrev two_events : List (TelemetryEvent ℕ)
two_events = event_at progress 1 10 ∷ event_at task_started 2 20 ∷ []

abbrev payload_of : ℕ → Bytes
payload_of n = 129 ∷ 0 ∷ n ∷ n ∷ []

abbrev frame_of : ℕ → Bytes
frame_of n = 0 ∷ 0 ∷ 0 ∷ 4 ∷ payload_of n

abbrev two_frames : Bytes
two_frames =
    0 ∷ 0 ∷ 0 ∷ 24 ∷ 83 ∷ 67 ∷ 66 ∷ 49 ∷ 0 ∷ 0 ∷ 0 ∷ 2 ∷ 0 ∷ 0 ∷ 0 ∷ 4 ∷ 129 ∷ 0 ∷ 1 ∷ 10 ∷ 0 ∷ 0
    ∷ 0 ∷ 4 ∷ 129 ∷ 1 ∷ 2 ∷ 20 ∷ []

two_framed : frame_event_batch toy_events two_events ≡ ok two_frames
unfolding frame_event_batch batch_body to_vec to_be_bytes
two_framed = refl

read_framed_events-frame_event_batch_example :
    read_framed_events toy_events (two_frames ++ (7 ∷ [])) ≡ ok (two_events, 7 ∷ [])
read_framed_events-frame_event_batch_example =
    read_framed_events-frame_event_batch toy_events toy_events-IsFaithful two_events (7 ∷ [])
      two_framed (omega arith)

one_framed : frame_event toy_events (event_at progress 1 1) ≡ ok (frame_of 1)
unfolding frame_event to_vec to_be_bytes
one_framed = refl

read_framed_event-frame_event_example :
    read_framed_event toy_events (frame_of 1 ++ (7 ∷ [])) ≡ ok (event_at progress 1 1, 7 ∷ [])
read_framed_event-frame_event_example =
    read_framed_event-frame_event toy_events toy_events-IsFaithful (event_at progress 1 1) (7 ∷ [])
      one_framed (omega arith)

abbrev empty_frame : Bytes
empty_frame = 0 ∷ 0 ∷ 0 ∷ 8 ∷ 83 ∷ 67 ∷ 66 ∷ 49 ∷ 0 ∷ 0 ∷ 0 ∷ 0 ∷ []

no_framed : frame_event_batch toy_events [] ≡ ok empty_frame
unfolding frame_event_batch batch_body to_vec to_be_bytes
no_framed = refl

-- the reader of single events at a batch of none
read_framed_event-frame_event_batch_example :
    read_framed_event toy_events (empty_frame ++ []) ≡ err panicked
read_framed_event-frame_event_batch_example =
    read_framed_event-frame_event_batch toy_events toy_events-IsFaithful [] [] no_framed
      (omega arith)

-- A channel is whether somebody listens, and what was sent.
abbrev pub toy_bus : Broadcast (TelemetryEvent ℕ)
toy_bus = record {
  Channel = Bool × List (TelemetryEvent ℕ);
  channel = (false, []);
  send = λ (heard, log) event. if heard then some (heard, log ++ (event ∷ [])) else none;
  subscribe = λ (heard, log). (true, log);
}

abbrev toy_bus-Hears : Hears toy_bus
toy_bus-Hears = record {
  heard = λ (tx : Bool × List (TelemetryEvent ℕ)). tx.1;
  IsOpen = λ (tx : Bool × List (TelemetryEvent ℕ)). tx.0 ≡ true;
  subscribe-IsOpen = λ tx. refl;
  send_takes = λ tx event open_tx. ((tx.0, tx.1 ++ (event ∷ [])), rw open_tx refl, open_tx, refl);
}

abbrev sends : List (String × TelemetryEvent ℕ)
sends =
    ("q", event_at progress 1 1) ∷ ("r", event_at progress 2 2) ∷ ("r", event_at progress 3 3) ∷ []

send_events-subscribe_example :
    (tx : Bool × List (TelemetryEvent ℕ)) × (StringMap.get
        (send_events toy_bus (Sse.subscribe toy_bus new_sse "r") sends).channels
        "r"
      ≡ some tx)
    × (tx.1
        ≡ toy_bus-Hears.heard (toy_bus.subscribe (channel_for_run toy_bus new_sse "r").1)
          ++ events_of toy_bus "r" sends)
send_events-subscribe_example = send_events-subscribe toy_bus toy_bus-Hears new_sse "r" sends

-- The stream 0 is stale, and the others take what is written.
abbrev toy_write : List Bytes → ℕ → Bytes → List Bytes × Result String (Unit {0})
toy_write net zero framed = (net, err "closed")
toy_write net (suc n) framed = (net ++ (framed ∷ []), ok tt)

abbrev toy_connection : Connection
toy_connection = record {
  Net = List Bytes;
  Stream = ℕ;
  connect = λ net. (net, ok tt);
  open_uni = λ net. (net, ok 1);
  write_all = toy_write;
  flush = λ net stream. net;
  send_bi = λ net framed. (net ++ (framed ∷ []), ok tt);
}

abbrev streams : QuicStreams ℕ (Bool × List (TelemetryEvent ℕ)) ℕ
streams = record {
  fallback = new_sse;
  events_sent = 3;
  events_delivered = 2;
  events_dropped = 1;
  fallback_count = 1;
  shared_uni_stream = some 0;
  pending_events = [];
  uni_writes = 4;
}

send_event-IsCounted_example :
    IsCounted
      (Streams.send_event toy_bus
        (λ reason. 0)
        toy_events
        toy_connection
        true
        true
        true
        16
        4
        (λ e. "error")
        []
        streams
        9
        "r"
        (event_at task_started 2 2)).1
send_event-IsCounted_example =
    send_event-IsCounted toy_bus (λ reason. 0) toy_events toy_connection true true true 16 4
      (λ e. "error") [] streams 9 "r" (event_at task_started 2 2) refl

abbrev three_progress : List (TelemetryEvent ℕ)
three_progress = event_at progress 1 1 ∷ event_at progress 2 2 ∷ event_at progress 3 3 ∷ []

abbrev pair_frame : Bytes
pair_frame =
    0 ∷ 0 ∷ 0 ∷ 24 ∷ 83 ∷ 67 ∷ 66 ∷ 49 ∷ 0 ∷ 0 ∷ 0 ∷ 2 ∷ 0 ∷ 0 ∷ 0 ∷ 4 ∷ 129 ∷ 0 ∷ 1 ∷ 1 ∷ 0 ∷ 0 ∷ 0
    ∷ 4 ∷ 129 ∷ 0 ∷ 2 ∷ 2 ∷ []

three_coalesced :
    coalesce_all toy_events 2 [] three_progress ≡ ok (event_at progress 3 3 ∷ [], pair_frame ∷ [])
unfolding coalesce_all coalesce frame_event_batch batch_body to_vec to_be_bytes
three_coalesced = refl

parse_all-coalesce_all_example :
    (taken : List (TelemetryEvent ℕ)) × (parse_all toy_events (pair_frame ∷ []) ≡ ok taken)
    × (taken ++ (event_at progress 3 3 ∷ []) ≡ three_progress)
    × (1 < 2)
parse_all-coalesce_all_example =
    parse_all-coalesce_all toy_events 2 [] three_progress toy_events-IsFaithful.roundtrips
      (omega arith) (refl, (refl, (refl, tt))) (omega arith) three_coalesced
