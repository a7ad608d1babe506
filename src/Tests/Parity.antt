-- ===== src/Tests/Parity.antt =====
-- Parity packets, and a lost chunk that comes back.
use sc_transport.Base.{
  ℕ, zero, suc, ◌+◌, ◌*◌, ◌≤◌, ◌<◌, ◌^◌, ◌≡◌, refl, arith, true, false, none, some, List, [], ◌∷◌,
  ◌++◌, length, get_elem?, ok, err, saturating_add, ◌>>=◌,
}
use sc_transport.Base.Bytes.{Bytes, to_be_bytes, resize}
use sc_transport.Base.HashSet.{contains}
use sc_transport.Wire.{TransferManifest}
use sc_transport.Wire.Frame.{encode}
use sc_transport.Compress.{maybe_compress, is_likely_compressed}
use sc_transport.Packet.{Packet}
use sc_transport.Sender.{num_chunks, frame_chunk, frame_bytes, chunk_descriptor}
use sc_transport.Receiver.Assembly.{Agrees, chunk}
use sc_transport.Receiver.Deliver.{Announces}
use sc_transport.Receiver.Fec.{
  Shards, Ingest, fec_missing_data_slots, fec_recovery_ready, recover_group, try_fec_group_recover,
  max_len,
}
use sc_transport.Receiver.Ingest.{ingest_wire_frame, put_shard, max_body}
use sc_transport.Parity.Stash.{waiting, stash_fec_packet-waiting}
use sc_transport.Parity.{
  FecEncoder, max_payload, parity_packet, frame_fec_wire_shard, stash_fec_packet, first_group,
  parity_chunk_index, shard_descriptor,
}
use sc_transport.Parity.Slots.{IsEncoded}
use sc_transport.Parity.Recovery.{recover_group-missing}
use sc_transport.Parity.Deliver.{ingest_wire_frame-parity_packet}
use sc_transport.Tests.Samples.{file, sender_config, manifest}
use sc_transport.Tests.Rs.{toy_rs, toy_rs-IsFaithful, toy_RsReconstructs, sum_of}

-- Two chunks of the sample file to a group, and one parity row.
abbrev coded : TransferManifest
coded = record manifest { parity_shards = 1 }

-- the code that makes frames, for the tests that run it
framing : Unit {0}
unfolding num_chunks frame_chunk frame_bytes chunk_descriptor encode maybe_compress
    is_likely_compressed to_be_bytes
framing = tt

sample-Announces : Announces sender_config coded file
unfolding framing
sample-Announces = record {
  positive = omega arith;
  small = omega arith;
  chunk_size = refl;
  compression = refl;
  chunks = refl;
  total = refl;
}

abbrev wire : ℕ → Bytes
unfolding framing
wire i = elim (frame_chunk toy_rs sender_config i (chunk sender_config file i) coded) [
  | ok w ↦ w
  | err _ ↦ []
]

abbrev packet : ℕ → Packet
packet i = record {
  id = i;
  seq = i;
  payload = wire i;
  is_parity = false;
  meta = record { id = i; priority = 1; deadline = none; size = length (wire i) };
  fec_group = 0;
  reconstructable = false;
  parity_index = 0;
}

abbrev block : List Packet
block = packet 0 ∷ packet 1 ∷ []

abbrev row : Bytes
unfolding max_payload resize
row = sum_of (resize (max_payload block) (wire 0)) (resize (max_payload block) (wire 1))

block_framed :
    (slot : ℕ) (p : Packet)
    → get_elem? block slot ≡ some p
    → (0 * 2 + slot < num_chunks sender_config 9)
      × (frame_chunk toy_rs sender_config
            (0 * 2 + slot)
            (chunk sender_config file (0 * 2 + slot))
            coded
          ≡ ok p.payload)
unfolding framing
block_framed zero p h = let e : packet 0 ≡ p = ground arith in rw (← e) (omega arith, refl)
block_framed (suc zero) p h = let e : packet 1 ≡ p = ground arith in rw (← e) (omega arith, refl)
block_framed (suc (suc slot)) p h = absurd (ground arith)

sample-IsEncoded :
    IsEncoded toy_rs toy_rs-IsFaithful sender_config coded file sample-Announces 0 block (row ∷ [])
unfolding framing max_payload resize
sample-IsEncoded = record {
  positive = omega arith;
  full = refl;
  small = omega arith;
  framed = block_framed;
  nonempty = omega arith;
  coded = refl;
}

-- The chunk 1 is lost.
abbrev arrived : Shards
arrived = some (wire 0) ∷ none ∷ some row ∷ []

abbrev fresh : Ingest
fresh = record {
  received = record {
    out = record { content = 0 ∷ 0 ∷ 0 ∷ 0 ∷ 0 ∷ 0 ∷ 0 ∷ 0 ∷ 0 ∷ []; capacity = 100 };
    received_chunks = [];
  };
  fec_groups = [];
}

fresh-Agrees : Agrees sender_config file fresh.received
unfolding contains
fresh-Agrees = record {
  sized = refl;
  distinct = tt;
  inside = λ i h. absurd (ground arith);
  bytes = λ i k h. absurd (ground arith);
}

reached : max_payload block ≤ max_len arrived
unfolding framing max_payload max_len resize
reached = omega arith

ready : fec_recovery_ready arrived coded ≡ true
unfolding fec_recovery_ready
ready = refl

recover_group-missing_example :
    (t : Ingest) × (recover_group toy_rs coded true 0 arrived fresh ≡ ok t)
    × Agrees sender_config file t.received
    × (fec_missing_data_slots arrived coded 0 t.received.received_chunks ≡ [])
recover_group-missing_example =
    recover_group-missing toy_rs toy_rs-IsFaithful sender_config coded file sample-Announces 0 block
      (row ∷ []) sample-IsEncoded toy_RsReconstructs arrived true fresh (refl, (refl, tt)) reached
      ready fresh-Agrees (omega arith)

abbrev encoder : FecEncoder
encoder = record { data_shards = 2; parity_shards = 1 }

abbrev parity : Packet
unfolding parity_packet frame_fec_wire_shard first_group shard_descriptor parity_chunk_index encode
    frame_bytes to_be_bytes
parity = elim (parity_packet toy_rs encoder block 0 row) [ ok p ↦ p | err _ ↦ packet 0 ]

made : parity_packet toy_rs encoder block 0 row ≡ ok parity
unfolding parity_packet frame_fec_wire_shard first_group shard_descriptor parity_chunk_index encode
    frame_bytes to_be_bytes row wire
made = refl

row_small : length row < 2 ^ 32
unfolding row wire
row_small = omega arith

row_short : length row ≤ max_body coded
unfolding max_body row wire
row_short = omega arith

ingest_wire_frame-parity_packet_example :
    ingest_wire_frame toy_rs coded true true [] (parity.payload ++ []) fresh ≡ (do
      s' ←
          try_fec_group_recover toy_rs coded true
            (first_group block)
            (put_shard coded (first_group block) (saturating_add 0 2) row fresh)
      ok (s', first_group block))
ingest_wire_frame-parity_packet_example =
    ingest_wire_frame-parity_packet toy_rs toy_rs-IsFaithful coded true [] encoder block 0 row []
      fresh made row_small row_short

stash_fec_packet-waiting_example : waiting (stash_fec_packet [] 3 (packet 1)) 3 1 ≡ some (packet 1)
stash_fec_packet-waiting_example = stash_fec_packet-waiting [] 3 (packet 1) 3 1
