-- ===== src/Tests/Samples.antt =====
-- A toy version of the packages that satisfies their laws, and the data of the tests.
use sc_transport.Base.{
  ℕ, zero, suc, ◌≤◌, ◌<◌, ◌≡◌, arith, Bool, true, false, Option, none, some, [], ◌∷◌, length, leb,
  ◌==◌, if◌then◌else◌,
}
use sc_transport.Base.Bytes.{Bytes}
use sc_transport.Base.Int.{ℤ, pos}
use sc_transport.Crates.{Crates, IsFaithful}
use sc_transport.Wire.{CompressionType, ChecksumAlg, TransferManifest, ChunkDescriptor}
use sc_transport.Wire.Frame.{max_chunk_descriptor_bytes}
use sc_transport.Sender.{SenderConfig}
use sc_transport.Receiver.Transfer.{ReceiverConfig}

abbrev pub bit : Bool → ℕ
bit true = 1
bit false = 0

abbrev pub toy_encode : ChunkDescriptor → Option Bytes
toy_encode d =
    if leb (length d.checksum) 32
    then some (
        d.index
        ∷ d.offset
        ∷ d.compressed_size
        ∷ d.uncompressed_size
        ∷ bit d.was_compressed
        ∷ bit d.is_parity
        ∷ d.parity_index
        ∷ d.fec_group
        ∷ d.checksum)
    else none

abbrev pub toy_decode : Bytes → Option ChunkDescriptor
toy_decode (i ∷ o ∷ c ∷ u ∷ w ∷ p ∷ k ∷ g ∷ sum) = some (record {
  index = i;
  offset = o;
  compressed_size = c;
  uncompressed_size = u;
  checksum = sum;
  was_compressed = w == 1;
  is_parity = p == 1;
  parity_index = k;
  fec_group = g;
})
toy_decode _ = none

-- four zeros in front are written as a one
abbrev pub toy_pack : Bytes → ℤ → Option Bytes
toy_pack (zero ∷ zero ∷ zero ∷ zero ∷ rest) level = some (1 ∷ rest)
toy_pack raw level = some (0 ∷ raw)

abbrev pub toy_unpack : Bytes → Option Bytes
toy_unpack [] = none
toy_unpack (zero ∷ raw) = some raw
toy_unpack (suc _ ∷ rest) = some (0 ∷ 0 ∷ 0 ∷ 0 ∷ rest)

abbrev pub toy : Crates
toy = record {
  hash = λ x. x;
  encode_all = toy_pack;
  decode_all = toy_unpack;
  descriptors = record { encode = toy_encode; decode = toy_decode };
  rs_new = λ d p. false;
  rs_encode = λ d p rows. none;
  rs_reconstruct_data = λ d p shards. none;
}

toy_unpack-toy_pack :
    (raw packed : Bytes) (level : ℤ)
    → toy_pack raw level ≡ some packed
    → toy_unpack packed ≡ some raw
toy_unpack-toy_pack (zero ∷ zero ∷ zero ∷ zero ∷ rest) packed level h = ground arith
toy_unpack-toy_pack _ packed level h = ground arith

toy_decode-toy_encode :
    (d : ChunkDescriptor) (raw : Bytes) → toy_encode d ≡ some raw → toy_decode raw ≡ some d
toy_decode-toy_encode d raw h = ground arith

toy_encode_sized :
    (d : ChunkDescriptor) (raw : Bytes)
    → toy_encode d ≡ some raw
    → (0 < length raw) × (length raw ≤ max_chunk_descriptor_bytes)
toy_encode_sized d raw h = ground arith

pub toy-IsFaithful : IsFaithful toy
toy-IsFaithful = record {
  zstd = record { decode-encode = toy_unpack-toy_pack };
  descriptors = record { decode-encode = toy_decode-toy_encode };
  sized = record {
    nonempty = λ d raw h. (toy_encode_sized d raw h).0;
    fits = λ d raw h. (toy_encode_sized d raw h).1;
  };
}

abbrev pub file : Bytes
file = 0 ∷ 0 ∷ 0 ∷ 0 ∷ 5 ∷ 6 ∷ 7 ∷ 8 ∷ 9 ∷ []

abbrev pub sender_config : SenderConfig
sender_config = record {
  chunk_size = 4;
  max_parallel_chunks = 16;
  compression = CompressionType.zstd (pos 3);
  require_final_ack = true;
}

abbrev pub receiver_config : ReceiverConfig
receiver_config = record {
  max_parallel_chunks = 16;
  verify_checksums = true;
  resume_partial = false;
}

abbrev pub manifest : TransferManifest
manifest = record {
  transfer_id = 1 ∷ [];
  filename = "payload.bin";
  total_size = 9;
  chunk_size = 4;
  num_chunks = 3;
  checksum_algorithm = ChecksumAlg.blake3;
  file_checksum = file;
  compression = CompressionType.zstd (pos 3);
  metadata = [];
  data_shards = 2;
  parity_shards = 0;
}
