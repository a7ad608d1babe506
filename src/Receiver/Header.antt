-- ===== src/Receiver/Header.antt =====
-- The frame of a chunk is parsed back, whatever follows it on the wire.
use sc_transport.Base.{
  ◌+◌, ◌-◌, ◌≤◌, ◌≡◌, refl, some, false, ◌++◌, append_assoc, arith, length, length-append,
  take-append_length, drop-append_length, ltb, le→ltb, ok,
}
use sc_transport.Base.Bytes.{Bytes, slice, to_be_bytes, from_be_bytes, from_be_bytes-to_be_bytes}
use sc_transport.Crates.{Crates, IsFaithful}
use sc_transport.Wire.{ChunkDescriptor}
use sc_transport.Wire.Frame.{decode, max_chunk_descriptor_bytes}
use sc_transport.Wire.RoundTrip.{check_frame_len_passes, length-to_be_bytes, drop-to_be_bytes}
use sc_transport.Sender.{frame_bytes}
use sc_transport.Receiver.{parse_framed_header, peek_framed_chunk_index}

module _ (desc_bytes payload pad : Bytes) where
  pub length-frame_bytes :
      length (frame_bytes desc_bytes payload ++ pad)
      ≡ 4 + length desc_bytes + length payload + length pad
  unfolding frame_bytes
  length-frame_bytes = omega (
    arith,
    length-append (frame_bytes desc_bytes payload) pad,
    length-append (to_be_bytes (length desc_bytes)) (desc_bytes ++ payload),
    length-append desc_bytes payload,
    length-to_be_bytes (length desc_bytes),
  )

  pub frame_bytes-append :
      frame_bytes desc_bytes payload ++ pad
      ≡ to_be_bytes (length desc_bytes) ++ (desc_bytes ++ (payload ++ pad))
  unfolding frame_bytes
  frame_bytes-append = rw (
    append_assoc (to_be_bytes (length desc_bytes)) (desc_bytes ++ payload) pad,
    append_assoc desc_bytes payload pad,
  )

  -- The descriptor is behind the length, and the payload is behind the descriptor.
  pub slice_descriptor :
      slice (frame_bytes desc_bytes payload ++ pad) 4 (4 + length desc_bytes) ≡ desc_bytes
  slice_descriptor =
      let n = length desc_bytes in
      let e : 4 + n - 4 ≡ n = omega arith in
      rw (
        frame_bytes-append,
        drop-to_be_bytes n (desc_bytes ++ (payload ++ pad)),
        e,
        take-append_length n desc_bytes (payload ++ pad) refl,
      )

  pub slice_payload :
      slice
        (frame_bytes desc_bytes payload ++ pad)
        (4 + length desc_bytes)
        (4 + length desc_bytes + length payload)
      ≡ payload
  slice_payload =
      let n = length desc_bytes in
      let m = length payload in
      let e : 4 + n + m - (4 + n) ≡ m = omega arith in
      let head = to_be_bytes n ++ desc_bytes in
      let l : length head ≡ 4 + n =
        omega (arith, length-append (to_be_bytes n) desc_bytes, length-to_be_bytes n) in
      let g : to_be_bytes n ++ (desc_bytes ++ (payload ++ pad)) ≡ head ++ (payload ++ pad) =
        rw (append_assoc (to_be_bytes n) desc_bytes (payload ++ pad)) refl in
      rw (
        frame_bytes-append,
        g,
        drop-append_length (4 + n) head (payload ++ pad) l,
        e,
        take-append_length m payload pad refl,
      )

module _ (lib : Crates) (faithful : IsFaithful lib) (desc : ChunkDescriptor)
    (desc_bytes payload pad : Bytes) (encoded : lib.descriptors.encode desc ≡ some desc_bytes) where
  -- With faithful libraries, the bytes that the sender puts before a payload, whatever follows
  -- them, are parsed to the descriptor, with its place and its length.
  pub parse_framed_header-frame_bytes :
      parse_framed_header lib (frame_bytes desc_bytes payload ++ pad)
      ≡ ok (desc, 4, length desc_bytes)
  unfolding parse_framed_header decode
  parse_framed_header-frame_bytes =
      let n = length desc_bytes in
      let wire = frame_bytes desc_bytes payload ++ pad in
      let fits : n ≤ max_chunk_descriptor_bytes = faithful.sized.fits desc desc_bytes encoded in
      let l = length-frame_bytes desc_bytes payload pad in
      let long : ltb (length wire) 4 ≡ false = le→ltb (length wire) 4 (omega arith) in
      let there : ltb (length wire) (4 + n) ≡ false = le→ltb (length wire) (4 + n) (omega arith) in
      let read : from_be_bytes wire ≡ n =
        rw (frame_bytes-append desc_bytes payload pad)
          (from_be_bytes-to_be_bytes n (desc_bytes ++ (payload ++ pad)) (omega arith)) in
      let passes =
        check_frame_len_passes n max_chunk_descriptor_bytes
          (faithful.sized.nonempty desc desc_bytes encoded) fits in
      rw (
        long,
        read,
        passes,
        there,
        slice_descriptor desc_bytes payload pad,
        faithful.descriptors.decode-encode desc desc_bytes encoded,
      )

  pub peek_framed_chunk_index-frame_bytes :
      peek_framed_chunk_index lib (frame_bytes desc_bytes payload ++ pad) ≡ ok desc.index
  unfolding peek_framed_chunk_index
  peek_framed_chunk_index-frame_bytes =
      let wire = frame_bytes desc_bytes payload ++ pad in
      let long : ltb (length wire) 4 ≡ false =
        le→ltb (length wire) 4 (omega (arith, length-frame_bytes desc_bytes payload pad)) in
      rw (long, parse_framed_header-frame_bytes)
