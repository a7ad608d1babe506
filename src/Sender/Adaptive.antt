-- ===== src/Sender/Adaptive.antt =====
-- The packets that `send_adaptive` of crates/sct-core/src/sender/mod.rs makes of a file's chunks, those
-- that it sends again, and how `send` ends. When the packets go out, and on which path, is left to the
-- scheduler.
pub mod Laws
use sc_transport.Base.{
  ℕ, zero, suc, ◌+◌, ◌/◌, max, String, Bool, true, false, not, ◌||◌, Option, none, some, List, [],
  ◌∷◌, ◌++◌, take, length, leb, ltb, if◌then◌else◌, range, Result, ok, err, ◌>>=◌, reject_if, ◌>>◌,
}
use sc_transport.Base.Bytes.{Bytes}
use sc_transport.Base.HashSet.{HashSet, contains, insert}
use sc_transport.Crates.{Crates}
use sc_transport.Wire.{TransferManifest, FinalAck}
use sc_transport.Packet.{Packet, PacketMeta}
use sc_transport.Sender.{SenderConfig, SendError, build_chunk_payload, chunk_len}

-- `deadline` is what the clock and the round trip give.
unfoldable pub make_data_packet : ℕ → ℕ → Bytes → ℕ → TransferManifest → ℕ → Packet
make_data_packet deadline idx payload chunk_size manifest priority = record {
  id = idx;
  seq = idx;
  payload = payload;
  is_parity = false;
  meta = record {
    id = idx;
    priority = if ltb idx 2 then 240 else priority;
    deadline = some deadline;
    size = chunk_size;
  };
  fec_group = idx / max manifest.data_shards 1;
  reconstructable = false;
  parity_index = 0;
}

-- the parity rows of a group, which are none where a chunk of the first group is left out
unfoldable pub any_skipped : HashSet → List ℕ → Bool
any_skipped skip [] = false
any_skipped skip (i ∷ indices) = contains skip i || any_skipped skip indices

unfoldable pub parity_cap : TransferManifest → HashSet → ℕ
parity_cap manifest skip =
    if any_skipped skip (range manifest.data_shards) then 0 else manifest.parity_shards

module _ (lib : Crates) (config : SenderConfig) (file : Bytes) (total_size : ℕ)
    (manifest : TransferManifest) (skip : HashSet) (deadline : ℕ) where
  -- the packets of the loop over the chunks, in their order
  unfoldable pub data_packets : List ℕ → Result SendError (List Packet)
  data_packets [] = ok []
  data_packets (idx ∷ indices) =
      let packet = λ (payload : Bytes).
        make_data_packet deadline idx payload (chunk_len config idx total_size) manifest 100 in
      let made = build_chunk_payload lib config file idx total_size manifest >>= λ payload.
      data_packets indices >>= λ packets. ok (packet payload ∷ packets) in
      let rest = data_packets indices in if contains skip idx then rest else made

  -- what is pushed for an index, whose chunk is read or not
  unfoldable pub resent : ℕ → Result SendError Bytes → List Packet
  resent idx (err _) = []
  resent idx (ok payload) =
      make_data_packet deadline idx payload (chunk_len config idx total_size) manifest 255 ∷ []

  -- one round of the loop over the indices that the receiver misses
  unfoldable pub nack_retransmit : ℕ → List Packet × HashSet → List Packet × HashSet
  nack_retransmit idx (packets, retransmitted) =
      if contains skip idx || contains retransmitted idx then (packets, retransmitted) else (
        packets ++ resent idx (build_chunk_payload lib config file idx total_size manifest),
        insert retransmitted idx,
      )

  unfoldable pub nack_retransmits : List ℕ → List Packet × HashSet → List Packet × HashSet
  nack_retransmits [] s = s
  nack_retransmits (idx ∷ missing) s = nack_retransmits missing (nack_retransmit idx s)

  -- `missing` are the indices of the last feedback, if there is one.
  unfoldable pub push_nack_retransmits :
      Option (List ℕ) → List Packet × HashSet → List Packet × HashSet
  push_nack_retransmits none s = s
  push_nack_retransmits (some missing) s = nack_retransmits (take 8 missing) s

pub data SendEnd : Type 0 where
  verification_failed : Option String → SendEnd
  missing_final_ack : SendEnd

-- what `send` makes of the final acknowledgement, or of the error of its reader
unfoldable pub check_final_ack :
    {E : Type 0} → SenderConfig → Result E FinalAck → Result SendEnd (Unit {0})
check_final_ack config (ok ack) = reject_if (not ack.success) (verification_failed ack.message)
check_final_ack config (err e) = reject_if config.require_final_ack missing_final_ack
