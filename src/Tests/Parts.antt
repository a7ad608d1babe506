-- ===== src/Tests/Parts.antt =====
-- The parts of a transfer on samples: framing, cutting, compressing.
use sc_transport.Base.{
  ◌+◌, ◌*◌, ◌≤◌, ◌<◌, ◌≡◌, refl, arith, true, false, if◌then◌else◌, ltb, none, some, [], ◌∷◌, ◌++◌,
  length, ok,
}
use sc_transport.Base.Bytes.{Bytes, to_be_bytes, from_be_bytes}
use sc_transport.Base.Int.{pos}
use sc_transport.Wire.{CompressionType, TransferComplete, ChunkDescriptor}
use sc_transport.Wire.Codec.{Codec, RoundTrips}
use sc_transport.Wire.Frame.{write_framed, read_framed, check_frame_len}
use sc_transport.Wire.RoundTrip.{read_framed-write_framed, read_framed_bounds}
use sc_transport.Compress.{maybe_compress, maybe_decompress, is_likely_compressed}
use sc_transport.Compress.Laws.{maybe_compress_restores}
use sc_transport.Sender.{num_chunks}
use sc_transport.Sender.Geometry.{read_chunks, read_chunks-num_chunks}
use sc_transport.Tests.Samples.{toy, toy-IsFaithful, file, sender_config}

abbrev message_codec : Codec TransferComplete
message_codec = record {
  encode = λ m. some (length m.transfer_id ∷ m.transfer_id);
  decode = λ raw. elim raw [ [] ↦ none | n ∷ id ↦ some (record { transfer_id = id }) ];
}

message_codec-RoundTrips : RoundTrips message_codec
message_codec-RoundTrips = record { decode-encode = λ m raw h. ground arith }

abbrev message : TransferComplete
message = record { transfer_id = 7 ∷ 8 ∷ [] }

read_framed-write_framed_example :
    read_framed message_codec ((0 ∷ 0 ∷ 0 ∷ 3 ∷ 2 ∷ 7 ∷ 8 ∷ []) ++ (9 ∷ [])) ≡ ok (message, 9 ∷ [])
unfolding write_framed check_frame_len to_be_bytes
read_framed-write_framed_example =
    read_framed-write_framed message_codec message_codec-RoundTrips message (9 ∷ []) refl

abbrev stream : Bytes
stream = 0 ∷ 0 ∷ 0 ∷ 3 ∷ 2 ∷ 7 ∷ 8 ∷ 9 ∷ []

read_framed_bounds_example :
    (0 < from_be_bytes stream)
    × (from_be_bytes stream ≤ 64 * 1024 * 1024)
    × (4 + from_be_bytes stream + 1 ≡ 8)
read_framed_bounds_example =
    read_framed_bounds message_codec stream {msg = message} {rest = 9 ∷ []}
      read_framed-write_framed_example

abbrev packed : Bytes
packed = 1 ∷ 5 ∷ []

packs : maybe_compress toy (0 ∷ 0 ∷ 0 ∷ 0 ∷ 5 ∷ []) (CompressionType.zstd (pos 3)) ≡ ok packed
unfolding maybe_compress is_likely_compressed
packs = refl

abbrev zeros : Bytes
zeros = 0 ∷ 0 ∷ 0 ∷ 0 ∷ 5 ∷ []

maybe_compress_restores_example :
    (length packed ≤ length zeros)
    × ((if ltb (length packed) (length zeros)
          then maybe_decompress toy packed (CompressionType.zstd (pos 3))
          else ok packed)
        ≡ ok zeros)
    × (is_likely_compressed zeros ≡ true → packed ≡ zeros)
maybe_compress_restores_example =
    maybe_compress_restores toy toy-IsFaithful.zstd zeros (CompressionType.zstd (pos 3)) packs

read_chunks-num_chunks_example :
    read_chunks sender_config file (num_chunks sender_config (length file)) ≡ ok file
read_chunks-num_chunks_example = read_chunks-num_chunks sender_config file (omega arith)

abbrev desc : ChunkDescriptor
desc = record {
  index = 1;
  offset = 4;
  compressed_size = 2;
  uncompressed_size = 2;
  checksum = 5 ∷ 6 ∷ [];
  was_compressed = false;
  is_parity = false;
  parity_index = 0;
  fec_group = 0;
}

abbrev desc_bytes : Bytes
desc_bytes = 1 ∷ 4 ∷ 2 ∷ 2 ∷ 0 ∷ 0 ∷ 0 ∷ 0 ∷ 5 ∷ 6 ∷ []
