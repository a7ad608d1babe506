-- ===== src/Wire/RoundTrip.antt =====
-- Control frames survive the stream, and no frame outside the bounds is read or written.
use sc_transport.Base.{
  ℕ, ◌+◌, ◌≤◌, ◌<◌, ◌≡◌, refl, some, [], ◌++◌, append_assoc, arith, length, drop, length-append,
  length-drop, take-append_length, drop-append_length, le→ltb, ltb, false, ok,
}
use sc_transport.Base.Bytes.{Bytes, to_be_bytes, from_be_bytes, from_be_bytes-to_be_bytes}
use sc_transport.Wire.Codec.{Codec, RoundTrips}
use sc_transport.Wire.Frame.{
  check_frame_len, write_framed, read_framed, encode, decode, max_control_frame_bytes,
}

-- A length passes the check exactly when it lies in `1..=max`.
pub check_frame_len_bounds :
    (len max : ℕ) {u : Unit {0}} → check_frame_len len max ≡ ok u → (0 < len) × (len ≤ max)
unfolding check_frame_len
check_frame_len_bounds len max h = ground arith

pub check_frame_len_passes : (len max : ℕ) → 0 < len → len ≤ max → check_frame_len len max ≡ ok tt
unfolding check_frame_len
check_frame_len_passes len max p q = ground arith

-- What follows a length of four bytes is what was put there.
pub length-to_be_bytes : (n : ℕ) → length (to_be_bytes n) ≡ 4
unfolding to_be_bytes
length-to_be_bytes n = refl

pub drop-to_be_bytes : (n : ℕ) (ys : Bytes) → drop 4 (to_be_bytes n ++ ys) ≡ ys
unfolding to_be_bytes
drop-to_be_bytes n ys = refl

module _ {ℓ} {T : Type ℓ} (c : Codec T) where
  decode-encode :
      RoundTrips c
      → (msg : T) (payload : Bytes) → c.encode msg ≡ some payload
      → decode c payload ≡ ok msg
  unfolding decode
  decode-encode rt msg payload e = rw (rt.decode-encode msg payload e)

  read_framed_bytes :
      RoundTrips c
      → (msg : T) (payload rest : Bytes) → c.encode msg ≡ some payload
      → 0 < length payload
      → length payload ≤ max_control_frame_bytes
      → read_framed c (to_be_bytes (length payload) ++ (payload ++ rest)) ≡ ok (msg, rest)
  unfolding read_framed
  read_framed_bytes rt msg payload rest e pos fits =
      let n = length payload in
      let body = payload ++ rest in
      let wire = to_be_bytes n ++ body in
      let long : ltb (length wire) 4 ≡ false =
        le→ltb (length wire) 4
          (omega (arith, length-append (to_be_bytes n) body, length-to_be_bytes n)) in
      let read : from_be_bytes wire ≡ n = from_be_bytes-to_be_bytes n body (omega arith) in
      let passes = check_frame_len_passes n max_control_frame_bytes pos fits in
      let there : ltb (length body) n ≡ false =
        le→ltb (length body) n (omega (arith, length-append payload rest)) in
      let found : decode c payload ≡ ok msg = decode-encode rt msg payload e in
      rw (
        long,
        read,
        passes,
        drop-to_be_bytes n body,
        there,
        take-append_length n payload rest refl,
        found,
        drop-append_length n payload rest refl,
      )

  write_framed_bytes :
      (writer : Bytes) (msg : T) {out : Bytes}
      → write_framed c writer msg ≡ ok out
      → (payload : Bytes) × (c.encode msg ≡ some payload)
        × (0 < length payload)
        × (length payload ≤ max_control_frame_bytes)
        × (out ≡ writer ++ (to_be_bytes (length payload) ++ payload))
  unfolding write_framed encode check_frame_len
  write_framed_bytes writer msg h = ground arith

  -- For messages that decode to what was encoded: what `write_framed` puts on the stream without
  -- an error, `read_framed` reads back, and it leaves what follows on the stream.
  pub read_framed-write_framed :
      RoundTrips c
      → (msg : T) (rest : Bytes) {out : Bytes} → write_framed c [] msg ≡ ok out
      → read_framed c (out ++ rest) ≡ ok (msg, rest)
  read_framed-write_framed rt msg rest h =
      let (payload, e, pos, fits, o) = write_framed_bytes [] msg h in
      rw (o, append_assoc (to_be_bytes (length payload)) payload rest)
        (read_framed_bytes rt msg payload rest e pos fits)

  -- A frame that is read without an error announces between 1 and `max_control_frame_bytes` bytes,
  -- and exactly these and the four bytes of the length are taken off the stream.
  pub read_framed_bounds :
      (reader : Bytes) {msg : T} {rest : Bytes}
      → read_framed c reader ≡ ok (msg, rest)
      → (0 < from_be_bytes reader)
        × (from_be_bytes reader ≤ max_control_frame_bytes)
        × (4 + from_be_bytes reader + length rest ≡ length reader)
  unfolding read_framed check_frame_len
  read_framed_bounds reader h =
      ground
        (arith, length-drop {0} 4 reader, length-drop {0} (from_be_bytes reader) (drop 4 reader))
