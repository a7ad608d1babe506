-- ===== src/Pipeline.antt =====
-- The task of `run_pipeline` of crates/sct-core/src/adaptive/mod.rs that turns packets into blocks with
-- parity: it takes packets from one channel, keeps them by group until a group is complete, and hands
-- the encoded packets to the next channel. A channel is the list of what is sent on it.
pub mod Block
pub mod Drain
pub mod Stash
pub mod Encode
pub mod Flush
use sc_transport.Base.{
  ℕ, zero, suc, ◌+◌, ◌/◌, max, min, Option, none, some, List, [], ◌∷◌, ◌++◌, length, ◌==◌,
  if◌then◌else◌,
}
use sc_transport.Base.HashMap
use sc_transport.Base.HashMap.{HashMap}
use sc_transport.Base.HashSet.{contains}
use sc_transport.Crates.{Crates}
use sc_transport.Packet.{Packet}
use sc_transport.Parity.{FecEncoder, stash_fec_packet, drain_fec_block_from_packets}

-- the encoder of a group: a straggler gets one more parity packet, and none gets more than the cap
unfoldable pub fec_for : FecEncoder → ℕ → List ℕ → ℕ → FecEncoder
fec_for base_fec fec_cap straggler_ids g =
    let raised =
      min (max (min (base_fec.parity_shards + 1) (base_fec.data_shards / 2)) base_fec.parity_shards)
        fec_cap in
    if fec_cap == 0
    then record base_fec { parity_shards = 0 }
    else if contains straggler_ids g
    then record base_fec { parity_shards = raised }
    else record base_fec { parity_shards = min base_fec.parity_shards fec_cap }

-- `while let Some(encoded) = drain_fec_block_from_packets(..)`: what is sent, and what is left
unfoldable pub drain_blocks : Crates → ℕ → List Packet → ℕ → FecEncoder → List Packet × List Packet
drain_blocks lib zero buf g fec = ([], buf)
drain_blocks lib (suc fuel) buf g fec = elim (drain_fec_block_from_packets lib buf g fec) [
  | none ↦ ([], buf)
  | some (encoded, left) ↦
      let rest = drain_blocks lib fuel left g fec in (encoded ++ rest.0, rest.1)
]

-- each round takes a packet at least
abbrev pub drain_fuel : List Packet → ℕ
drain_fuel buf = suc (length buf)

abbrev pub keys : HashMap (List Packet) → List ℕ
keys [] = []
keys ((g, buf) ∷ stash) = g ∷ keys stash

module _ (lib : Crates) (fec_of : ℕ → FecEncoder) where
  -- the body of the loop for a packet `p`: what is sent, and the stash
  unfoldable pub encode_packet :
      HashMap (List Packet) → Packet → List Packet × HashMap (List Packet)
  encode_packet stash p =
      let g = p.fec_group in
      let stashed = stash_fec_packet stash g p in
      elim (HashMap.get stashed g) [
        | none ↦ ([], stashed)
        | some buf ↦
            let drained = drain_blocks lib (drain_fuel buf) buf g (fec_of g) in
            (drained.0, HashMap.put stashed g drained.1)
      ]

  unfoldable pub encode_packets :
      HashMap (List Packet) → List Packet → List Packet × HashMap (List Packet)
  encode_packets stash [] = ([], stash)
  encode_packets stash (p ∷ packets) =
      let first = encode_packet stash p in
      let rest = encode_packets first.1 packets in (first.0 ++ rest.0, rest.1)

  -- what is sent of a group at the end, and the stash without the group
  unfoldable pub flush_group : HashMap (List Packet) → ℕ → List Packet × HashMap (List Packet)
  flush_group stash g = elim (HashMap.get stash g) [
    | none ↦ ([], stash)
    | some buf ↦
        let drained = drain_blocks lib (drain_fuel buf) buf g (fec_of g) in
        (drained.0 ++ drained.1, HashMap.remove stash g)
  ]

  unfoldable pub flush_groups : HashMap (List Packet) → List ℕ → List Packet × HashMap (List Packet)
  flush_groups stash [] = ([], stash)
  flush_groups stash (g ∷ groups) =
      let first = flush_group stash g in
      let rest = flush_groups first.1 groups in (first.0 ++ rest.0, rest.1)

  -- All that the task sends. `order` is the order in which the map goes through its keys.
  unfoldable pub encode_task : (List ℕ → List ℕ) → List Packet → List Packet
  encode_task order packets =
      let sent = encode_packets [] packets in
      let flushed = flush_groups sent.1 (order (keys sent.1)) in sent.0 ++ flushed.0
