-- ===== src/Telemetry/Batch.antt =====
-- crates/sc-transport-quic/src/batch.rs: the events of a run in frames over streams of their own. What
-- the connection makes of the task of a chunk is an argument, a function of the chunk's number.
pub mod Laws
use mathlib.Core.Option
use sc_transport.Base.{
  ℕ, zero, suc, ◌+◌, Bool, true, false, Option, none, some, List, [], ◌∷◌, length, take, drop, max,
  ltb, ◌==◌, if◌then◌else◌, Result, ok, err, ◌&&◌,
}
use sc_transport.Base.Bytes.{Bytes}
use sc_transport.Base.Float.{Float}
use sc_transport.Wire.Codec.{Codec}
use sc_transport.Telemetry.{TelemetryEvent, TransportError}
use sc_transport.Telemetry.Frames.{frame_event, frame_event_batch}
use sc_transport.Telemetry.Streams.{large_frame_threshold}

pub record BatchSender : Type 0 where
  pub max_parallel_streams : ℕ
  pub chunk_size : ℕ

abbrev pub default_sender : BatchSender
default_sender = record { max_parallel_streams = 16; chunk_size = 128 }

-- `F` is `f64`; `elapsed` is in seconds.
pub record BatchSendResult (F : Type 0) : Type 0 where
  pub total_events : ℕ
  pub sent_events : ℕ
  pub failed_chunks : ℕ
  pub elapsed : F
  pub effective_throughput_events_per_sec : F

-- `events.chunks(n)`, by a fuel that is at least the number of the events
unfoldable pub chunks_within : {A : Type 0} → ℕ → ℕ → List A → List (List A)
chunks_within zero n events = []
chunks_within (suc fuel) n [] = []
chunks_within (suc fuel) n (event ∷ events) =
    take n (event ∷ events) ∷ chunks_within fuel n (drop n (event ∷ events))

unfoldable pub chunks : {A : Type 0} → ℕ → List A → List (List A)
chunks n events = chunks_within (length events) n events

-- What the connection makes of a chunk: whether the stream is opened, whether it takes the bytes, and
-- whether the task comes to its end.
pub record Fate : Type 0 where
  pub opens : Bool
  pub takes : Bytes → Bool
  pub joins : Bool

module _ {V : Type 0} (codec : Codec (TelemetryEvent V)) where
  -- the frames of the first event say how many go in a chunk
  unfoldable pub batch_chunk_size : BatchSender → List (TelemetryEvent V) → ℕ
  batch_chunk_size sender [] = max sender.chunk_size 1
  batch_chunk_size sender (event ∷ _) = elim (frame_event codec event) [
    | err e ↦ max sender.chunk_size 1
    | ok bytes ↦ if ltb large_frame_threshold (length bytes) then 1 else max sender.chunk_size 1
  ]

  unfoldable pub frame_chunk_events : List (TelemetryEvent V) → Result TransportError Bytes
  frame_chunk_events (event ∷ []) = frame_event codec event
  frame_chunk_events events = frame_event_batch codec events

  -- The task of a chunk: the events that were sent, and the chunks that failed.
  unfoldable pub send_chunk : Fate → List (TelemetryEvent V) → ℕ × ℕ
  send_chunk fate chunk =
      let outcome : ℕ × ℕ = elim (frame_chunk_events chunk) [
        | err e ↦ (0, 1)
        | ok bytes ↦ if fate.takes bytes then (length chunk, 0) else (0, 1)
      ] in
      if fate.opens then outcome else (0, 1)

  -- the sums over the tasks that come to their end, where `i` is the number of the first chunk
  unfoldable pub join_all : (ℕ → Fate) → ℕ → List (List (TelemetryEvent V)) → ℕ × ℕ
  join_all fates i [] = (0, 0)
  join_all fates i (chunk ∷ rest) =
      let (sent, failed) = send_chunk (fates i) chunk in
      let (sents, faileds) = join_all fates (suc i) rest in
      if (fates i).joins then (sent + sents, failed + faileds) else (sents, faileds)

  unfoldable pub send_batch :
      (float : Float)
      → BatchSender
      → (ℕ → Fate)
      → float.F64
      → List (TelemetryEvent V)
      → BatchSendResult float.F64
  send_batch float sender fates elapsed events =
      let least = float.decimal 1 6 in
      let (sent_events, failed_chunks) =
        join_all fates 0 (chunks (batch_chunk_size sender events) events) in
      record {
        total_events = length events;
        sent_events = sent_events;
        failed_chunks = failed_chunks;
        elapsed = elapsed;
        effective_throughput_events_per_sec =
            float.div (float.of_ℕ sent_events) (if float.lt elapsed least then least else elapsed);
      }
