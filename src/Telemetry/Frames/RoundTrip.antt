-- ===== src/Telemetry/Frames/RoundTrip.antt =====
-- A batch of telemetry events is parsed to the events that it was made of.
use sc_transport.Base.{
  ℕ, ◌+◌, ◌<◌, ◌^◌, ◌≡◌, refl, arith, true, false, some, List, [], ◌∷◌, ◌++◌, length, drop, ltb,
  le→ltb, length-append, take-append_length, drop-append_length, ok, ==_refl,
}
use sc_transport.Base.Bytes.{Bytes, to_be_bytes, from_be_bytes, from_be_bytes-to_be_bytes, same}
use sc_transport.Wire.Codec.{Codec, RoundTrips}
use sc_transport.Wire.RoundTrip.{length-to_be_bytes, drop-to_be_bytes}
use sc_transport.Telemetry.{TelemetryEvent}
use sc_transport.Telemetry.Frames.{
  is_batch, batch_magic, to_vec, from_slice, batch_body, frame_event_batch, parse_events,
  parse_framed_events,
}

-- What MessagePack documents of an event, which it writes as a map: it is read back, and it starts
-- with the marker of a map, so that it is not empty and does not look like a batch.
pub record IsFaithful {V : Type 0} (codec : Codec (TelemetryEvent V)) : Type 0 where
  pub roundtrips : RoundTrips codec
  pub nonempty :
      (event : TelemetryEvent V) (raw : Bytes) → codec.encode event ≡ some raw → 0 < length raw
  pub no_batch :
      (event : TelemetryEvent V) (raw : Bytes)
      → codec.encode event ≡ some raw
      → is_batch raw ≡ false

-- What stands behind a length.
module _ (payload rest : Bytes) (fits : length payload < 2 ^ 32) where
  pub length_of_framed :
      from_be_bytes (to_be_bytes (length payload) ++ (payload ++ rest)) ≡ length payload
  length_of_framed = from_be_bytes-to_be_bytes (length payload) (payload ++ rest) fits

  pub framed_long :
      length (to_be_bytes (length payload) ++ (payload ++ rest)) ≡ 4 + length payload + length rest
  framed_long = omega (
    arith,
    length-append (to_be_bytes (length payload)) (payload ++ rest),
    length-append payload rest,
    length-to_be_bytes (length payload),
  )

module _ {V : Type 0} (codec : Codec (TelemetryEvent V)) (rt : RoundTrips codec) where
  batch_body_cons :
      (event : TelemetryEvent V) (events : List (TelemetryEvent V)) {body : Bytes}
      → batch_body codec (event ∷ events) ≡ ok body
      → (raw rest : Bytes) × (codec.encode event ≡ some raw)
        × (length raw < 2 ^ 32)
        × (batch_body codec events ≡ ok rest)
        × (body ≡ to_be_bytes (length raw) ++ (raw ++ rest))
  unfolding batch_body to_vec
  batch_body_cons event events h = ground arith

  parse_events-batch_body :
      (events : List (TelemetryEvent V)) {body : Bytes}
      → batch_body codec events ≡ ok body
      → parse_events codec (length events) body ≡ ok events
  unfolding parse_events from_slice
  parse_events-batch_body [] h = refl
  parse_events-batch_body (event ∷ events) h =
      let (raw, rest, encoded, fits, more, b) = batch_body_cons event events h in
      let wire = to_be_bytes (length raw) ++ (raw ++ rest) in
      let long : ltb (length wire) 4 ≡ false =
        le→ltb (length wire) 4 (omega (arith, framed_long raw rest fits)) in
      let there : ltb (length (raw ++ rest)) (length raw) ≡ false =
        le→ltb (length (raw ++ rest)) (length raw) (omega (arith, length-append raw rest)) in
      rw (
        b,
        long,
        length_of_framed raw rest fits,
        drop-to_be_bytes (length raw) (raw ++ rest),
        there,
        take-append_length (length raw) raw rest refl,
        drop-append_length (length raw) raw rest refl,
        rt.decode-encode event raw encoded,
        parse_events-batch_body events more,
      )

  -- the parts of a batch frame
  pub frame_event_batch_parts :
      (events : List (TelemetryEvent V)) {framed : Bytes}
      → frame_event_batch codec events ≡ ok framed
      → (body : Bytes) × (batch_body codec events ≡ ok body)
        × (length events < 2 ^ 32)
        × (length (batch_magic ++ (to_be_bytes (length events) ++ body)) < 2 ^ 32)
        × (framed
            ≡ to_be_bytes (length (batch_magic ++ (to_be_bytes (length events) ++ body)))
              ++ (batch_magic ++ (to_be_bytes (length events) ++ body)))
  unfolding frame_event_batch
  frame_event_batch_parts events h = ground arith

  pub is_batch-batch :
      (n : ℕ) (body : Bytes) → is_batch (batch_magic ++ (to_be_bytes n ++ body)) ≡ true
  unfolding to_be_bytes same
  is_batch-batch n body = ground arith

  drop_batch : (n : ℕ) (body : Bytes) → drop 8 (batch_magic ++ (to_be_bytes n ++ body)) ≡ body
  unfolding to_be_bytes
  drop_batch n body = refl

  pub parse_framed_events-frame_event_batch :
      (events : List (TelemetryEvent V)) {framed : Bytes}
      → frame_event_batch codec events ≡ ok framed
      → parse_framed_events codec framed ≡ ok events
  unfolding parse_framed_events
  parse_framed_events-frame_event_batch events h =
      let (body, bodies, few, fits, f) = frame_event_batch_parts events h in
      let n = length events in
      let payload = batch_magic ++ (to_be_bytes n ++ body) in
      let wire = to_be_bytes (length payload) ++ payload in
      let l : length wire ≡ 4 + length payload = omega (
        arith,
        length-append (to_be_bytes (length payload)) payload,
        length-to_be_bytes (length payload),
      ) in
      let long : ltb (length wire) 4 ≡ false = le→ltb (length wire) 4 (omega arith) in
      rw (
        f,
        long,
        from_be_bytes-to_be_bytes (length payload) payload fits,
        drop-to_be_bytes (length payload) payload,
        ==_refl (length payload),
        is_batch-batch n body,
        drop_batch n body,
        from_be_bytes-to_be_bytes n body few,
        parse_events-batch_body events bodies,
      )
