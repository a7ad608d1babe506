-- ===== src/Telemetry/Frames/Reading.antt =====
-- The readers of a stream give the events that were framed, but the reader of single events panics at
-- an empty batch.
use sc_transport.Base.{
  ◌+◌, ◌≤◌, ◌<◌, ◌^◌, ◌≡◌, ap, arith, true, false, some, List, [], ◌∷◌, ◌++◌, append_assoc, length,
  drop, ltb, ◌==◌, le→ltb, length-append, take-append_length, drop-append_length, ok, err,
}
use sc_transport.Base.Bytes.{Bytes, to_be_bytes}
use sc_transport.Wire.Codec.{Codec}
use sc_transport.Wire.RoundTrip.{length-to_be_bytes, drop-to_be_bytes}
use sc_transport.Telemetry.{TelemetryEvent, panicked}
use sc_transport.Telemetry.Frames.{
  is_batch, batch_magic, max_telemetry_frame_bytes, to_vec, from_slice, frame_event,
  frame_event_batch, read_frame, read_framed_events, drain_first, read_framed_event,
}
use sc_transport.Telemetry.Frames.RoundTrip.{
  IsFaithful, length_of_framed, framed_long, parse_framed_events-frame_event_batch,
  frame_event_batch_parts, is_batch-batch,
}

-- A frame of a size that is read comes off the stream as it was put there.
read_frame_lem :
    (payload rest : Bytes)
    → 0 < length payload
    → length payload ≤ max_telemetry_frame_bytes
    → read_frame ((to_be_bytes (length payload) ++ payload) ++ rest)
      ≡ ok (to_be_bytes (length payload) ++ payload, rest)
unfolding read_frame
read_frame_lem payload rest pos small =
    let n = length payload in
    let framed = to_be_bytes n ++ payload in
    let fits : n < 2 ^ 32 = omega arith in
    let l : length framed ≡ 4 + n =
      omega (arith, length-append (to_be_bytes n) payload, length-to_be_bytes n) in
    let long : ltb (length (to_be_bytes n ++ (payload ++ rest))) 4 ≡ false =
      le→ltb (length (to_be_bytes n ++ (payload ++ rest))) 4
        (omega (arith, framed_long payload rest fits)) in
    let there : ltb (length (payload ++ rest)) n ≡ false =
      le→ltb (length (payload ++ rest)) n (omega (arith, length-append payload rest)) in
    let some_bytes : (n == 0) ≡ false = ground arith in
    let bounded : ltb max_telemetry_frame_bytes n ≡ false =
      le→ltb max_telemetry_frame_bytes n small in
    rw (
      append_assoc (to_be_bytes n) payload rest,
      long,
      length_of_framed payload rest fits,
      some_bytes,
      bounded,
      drop-to_be_bytes n (payload ++ rest),
      there,
      ← append_assoc (to_be_bytes n) payload rest,
      take-append_length (4 + n) framed rest l,
      drop-append_length (4 + n) framed rest l,
    )

module _ {V : Type 0} (codec : Codec (TelemetryEvent V)) (faithful : IsFaithful codec) where
  frame_event_parts :
      (event : TelemetryEvent V) {framed : Bytes}
      → frame_event codec event ≡ ok framed
      → (payload : Bytes) × (codec.encode event ≡ some payload)
        × (length payload < 2 ^ 32)
        × (framed ≡ to_be_bytes (length payload) ++ payload)
  unfolding frame_event to_vec
  frame_event_parts event h = ground arith

  -- With a faithful codec: an event that was framed, in a frame of no more than the greatest size,
  -- is read back from the stream, and what follows is left on the stream.
  pub read_framed_event-frame_event :
      (event : TelemetryEvent V) (rest : Bytes) {framed : Bytes}
      → frame_event codec event ≡ ok framed
      → length framed ≤ 4 + max_telemetry_frame_bytes
      → read_framed_event codec (framed ++ rest) ≡ ok (event, rest)
  unfolding read_framed_event from_slice
  read_framed_event-frame_event event rest {framed = framed} h small =
      let (payload, encoded, fits, f) = frame_event_parts event h in
      let n = length payload in
      let bounded : n ≤ max_telemetry_frame_bytes =
        omega (arith, ap length f, length-append (to_be_bytes n) payload, length-to_be_bytes n) in
      rw (
        f,
        read_frame_lem payload rest (faithful.nonempty event payload encoded) bounded,
        drop-to_be_bytes n payload,
        faithful.no_batch event payload encoded,
        faithful.roundtrips.decode-encode event payload encoded,
      )

  -- the frame of a batch comes off the stream
  read_frame-frame_event_batch :
      (events : List (TelemetryEvent V)) (rest : Bytes) {framed : Bytes}
      → frame_event_batch codec events ≡ ok framed
      → length framed ≤ 4 + max_telemetry_frame_bytes
      → (read_frame (framed ++ rest) ≡ ok (framed, rest)) × (is_batch (drop 4 framed) ≡ true)
  read_frame-frame_event_batch events rest h small =
      let (body, bodies, few, fits, f) =
        frame_event_batch_parts codec faithful.roundtrips events h in
      let payload = batch_magic ++ (to_be_bytes (length events) ++ body) in
      let n = length payload in
      let bounded : n ≤ max_telemetry_frame_bytes =
        omega (arith, ap length f, length-append (to_be_bytes n) payload, length-to_be_bytes n) in
      (
        rw (f, read_frame_lem payload rest (omega arith) bounded),
        rw (f, drop-to_be_bytes n payload)
            (is_batch-batch codec faithful.roundtrips (length events) body),
      )

  -- With a faithful codec: a batch that was framed, in a frame of no more than the greatest size,
  -- is read back from the stream, with its events in their order, and what follows is left on the
  -- stream.
  pub read_framed_events-frame_event_batch :
      (events : List (TelemetryEvent V)) (rest : Bytes) {framed : Bytes}
      → frame_event_batch codec events ≡ ok framed
      → length framed ≤ 4 + max_telemetry_frame_bytes
      → read_framed_events codec (framed ++ rest) ≡ ok (events, rest)
  unfolding read_framed_events
  read_framed_events-frame_event_batch events rest h small = rw (
    (read_frame-frame_event_batch events rest h small).0,
    parse_framed_events-frame_event_batch codec faithful.roundtrips events h,
  )

  -- With a faithful codec: of a batch that was framed, in a frame of no more than the greatest
  -- size, the reader of single events gives the first event and leaves what follows the frame on
  -- the stream, and it panics where the batch has no event.
  pub read_framed_event-frame_event_batch :
      (events : List (TelemetryEvent V)) (rest : Bytes) {framed : Bytes}
      → frame_event_batch codec events ≡ ok framed
      → length framed ≤ 4 + max_telemetry_frame_bytes
      → read_framed_event codec (framed ++ rest)
        ≡ (elim events [ [] ↦ err panicked | event ∷ _ ↦ ok (event, rest) ])
  unfolding read_framed_event drain_first
  read_framed_event-frame_event_batch [] rest h small =
      let (read, batch) = read_frame-frame_event_batch [] rest h small in
      rw (read, batch, parse_framed_events-frame_event_batch codec faithful.roundtrips [] h)
  read_framed_event-frame_event_batch (event ∷ events) rest h small =
      let (read, batch) = read_frame-frame_event_batch (event ∷ events) rest h small in
      rw (
        read,
        batch,
        parse_framed_events-frame_event_batch codec faithful.roundtrips (event ∷ events) h,
      )
