-- ===== src/Wire/Frame.antt =====
-- crates/sct-core/src/protocol/mod.rs: control frames, a length in four bytes and the message.
use sc_transport.Base.{
  ℕ, ◌*◌, ◌||◌, ◌++◌, length, take, drop, ltb, ◌==◌, Result, ok, ◌>>=◌, ◌>>◌, reject_if, ok_or,
}
use sc_transport.Base.Bytes.{Bytes, to_be_bytes, from_be_bytes}
use sc_transport.Wire.Codec.{Codec}

abbrev pub max_control_frame_bytes : ℕ
max_control_frame_bytes = 64 * 1024 * 1024

abbrev pub max_chunk_descriptor_bytes : ℕ
max_chunk_descriptor_bytes = 1024 * 1024

-- `encode_failed` and `decode_failed` are errors of bincode; `unexpected_eof` is the reader's.
pub data FrameError : Type 0 where
  encode_failed decode_failed unexpected_eof : FrameError
  frame_length : ℕ → ℕ → FrameError

unfoldable pub check_frame_len : ℕ → ℕ → Result FrameError (Unit {0})
check_frame_len len max = reject_if (len == 0 || ltb max len) (FrameError.frame_length len max)

module _ {ℓ} {T : Type ℓ} (c : Codec T) where
  unfoldable pub encode : T → Result FrameError Bytes
  encode msg = ok_or (c.encode msg) FrameError.encode_failed

  unfoldable pub decode : Bytes → Result FrameError T
  decode buf = ok_or (c.decode buf) FrameError.decode_failed

  -- The writer is the bytes that it has been given.
  unfoldable pub write_framed : Bytes → T → Result FrameError Bytes
  unfolding encode
  write_framed writer msg = do
    payload ← encode msg
    check_frame_len (length payload) max_control_frame_bytes
    ok (writer ++ (to_be_bytes (length payload) ++ payload))

  -- The reader is the bytes that are still to come; the result has the message and the rest.
  unfoldable pub read_framed : Bytes → Result FrameError (T × Bytes)
  unfolding decode
  read_framed reader = do
    reject_if (ltb (length reader) 4) FrameError.unexpected_eof
    let len = from_be_bytes reader
    check_frame_len len max_control_frame_bytes
    let rest = drop 4 reader
    reject_if (ltb (length rest) len) FrameError.unexpected_eof
    msg ← decode (take len rest)
    ok (msg, drop len rest)
