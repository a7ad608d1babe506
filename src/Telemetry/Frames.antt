-- ===== src/Telemetry/Frames.antt =====
-- The frames of crates/sc-transport-quic/src/lib.rs: one event, or a batch of events, behind a length
-- of four bytes. MessagePack (rmp-serde) is the codec.
pub mod RoundTrip
pub mod Reading
use sc_transport.Base.{
  ℕ, zero, suc, ◌+◌, ◌*◌, ◌^◌, Bool, Option, none, some, List, [], ◌∷◌, ◌++◌, length, take, drop,
  ltb, leb, ◌==◌, not, ◌&&◌, ◌||◌, if◌then◌else◌, Result, ok, err, ◌>>=◌, ◌>>◌, reject_if, ok_or,
}
use sc_transport.Base.Bytes.{Bytes, to_be_bytes, from_be_bytes, same}
use sc_transport.Wire.Codec.{Codec}
use sc_transport.Telemetry.{
  TelemetryEvent, TransportError, serialization, io_failed, panicked, unavailable,
}

-- "SCB1"
abbrev pub batch_magic : Bytes
batch_magic = 83 ∷ 67 ∷ 66 ∷ 49 ∷ []

abbrev pub max_telemetry_frame_bytes : ℕ
max_telemetry_frame_bytes = 64 * 1024 * 1024

abbrev pub is_batch : Bytes → Bool
is_batch payload = leb 8 (length payload) && same (take 4 payload) batch_magic

-- the next frame on the stream, with its length, and the rest of the stream
unfoldable pub read_frame : Bytes → Result TransportError (Bytes × Bytes)
read_frame reader = do
  reject_if (ltb (length reader) 4) io_failed
  let payload_len = from_be_bytes reader
  reject_if (payload_len == 0 || ltb max_telemetry_frame_bytes payload_len)
      (unavailable "telemetry frame length outside of its range")
  reject_if (ltb (length (drop 4 reader)) payload_len) io_failed
  ok (take (4 + payload_len) reader, drop (4 + payload_len) reader)

module _ {V : Type 0} (codec : Codec (TelemetryEvent V)) where
  -- `rmp_serde::to_vec_named` and `rmp_serde::from_slice`
  unfoldable pub to_vec : TelemetryEvent V → Result TransportError Bytes
  to_vec event = ok_or (codec.encode event) serialization

  unfoldable pub from_slice : Bytes → Result TransportError (TelemetryEvent V)
  from_slice payload = ok_or (codec.decode payload) serialization

  unfoldable pub frame_event : TelemetryEvent V → Result TransportError Bytes
  frame_event event = do
    payload ← to_vec event
    reject_if (leb (2 ^ 32) (length payload)) (unavailable "event payload exceeds u32 frame length")
    ok (to_be_bytes (length payload) ++ payload)

  unfoldable pub parse_framed_event : Bytes → Result TransportError (TelemetryEvent V)
  parse_framed_event buf = do
    reject_if (ltb (length buf) 4) (unavailable "frame too small")
    let declared_len = from_be_bytes buf
    reject_if (declared_len == 0 || ltb max_telemetry_frame_bytes declared_len)
        (unavailable "frame length out of range")
    reject_if (not (length (drop 4 buf) == declared_len)) (unavailable "frame length mismatch")
    from_slice (drop 4 buf)

  -- the events of a batch, each behind its length
  unfoldable pub batch_body : List (TelemetryEvent V) → Result TransportError Bytes
  batch_body [] = ok []
  batch_body (event ∷ events) = to_vec event >>= λ encoded.
      reject_if (leb (2 ^ 32) (length encoded))
        (unavailable "batched event payload exceeds u32 frame length")
      >> (batch_body events >>= λ rest. ok (to_be_bytes (length encoded) ++ (encoded ++ rest)))

  unfoldable pub frame_event_batch : List (TelemetryEvent V) → Result TransportError Bytes
  frame_event_batch events = do
    reject_if (leb (2 ^ 32) (length events)) (unavailable "too many events for batch frame")
    body ← batch_body events
    let payload = batch_magic ++ (to_be_bytes (length events) ++ body)
    reject_if (leb (2 ^ 32) (length payload)) (unavailable "batch payload exceeds u32 frame length")
    ok (to_be_bytes (length payload) ++ payload)

  -- so many events of the bytes that are left
  unfoldable pub parse_events : ℕ → Bytes → Result TransportError (List (TelemetryEvent V))
  parse_events zero rest = ok []
  parse_events (suc count) rest =
      let len = from_be_bytes rest in
      let body = drop 4 rest in
      reject_if (ltb (length rest) 4) (unavailable "invalid batch frame length header")
      >> (reject_if (ltb (length body) len) (unavailable "invalid batch frame payload boundary")
          >> (from_slice (take len body) >>= λ event.
              parse_events count (drop len body) >>= λ events. ok (event ∷ events)))

  unfoldable pub parse_framed_events : Bytes → Result TransportError (List (TelemetryEvent V))
  parse_framed_events buf = do
    reject_if (ltb (length buf) 4) (unavailable "frame too small")
    let payload = drop 4 buf
    reject_if (not (length payload == from_be_bytes buf)) (unavailable "frame length mismatch")
    if is_batch payload
        then parse_events (from_be_bytes (drop 4 payload)) (drop 8 payload)
        else (parse_framed_event buf >>= λ event. ok (event ∷ []))

  unfoldable pub read_framed_events :
      Bytes → Result TransportError (List (TelemetryEvent V) × Bytes)
  read_framed_events reader = do
    (framed, rest) ← read_frame reader
    events ← parse_framed_events framed
    ok (events, rest)

  -- `events.drain(..1).next()`, which panics where there is no event
  unfoldable pub drain_first : List (TelemetryEvent V) → Result TransportError (TelemetryEvent V)
  drain_first [] = err panicked
  drain_first (event ∷ _) = ok event

  unfoldable pub read_framed_event : Bytes → Result TransportError (TelemetryEvent V × Bytes)
  read_framed_event reader = do
    (framed, rest) ← read_frame reader
    let payload = drop 4 framed
    event ←
        (if is_batch payload
          then parse_framed_events framed >>= drain_first
          else from_slice payload)
    ok (event, rest)
