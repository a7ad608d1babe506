-- ===== src/Parity.antt =====
-- The parity packets of crates/sct-core/src/adaptive/mod.rs: which packets wait for the others of
-- their group, and the Reed-Solomon rows of a group that is complete.
pub mod Shards
pub mod Block
pub mod Deliver
pub mod Stash
pub mod Remove
pub mod Located
pub mod Drain
pub mod Slots
pub mod Recovery
use mathlib.Core.Option
use sc_transport.Base.{
  ℕ, zero, suc, ◌+◌, ◌-◌, ◌^◌, ◌%◌, max, min, Bool, true, false, not, Option, none, some, List, [],
  ◌∷◌, ◌++◌, map, length, take, filter, is_some, leb, ltb, ◌==◌, ◌||◌, if◌then◌else◌, range_from,
  u64_max, saturating_add, saturating_mul, saturating_sub, Result, ok, err, ◌>>=◌,
}
use sc_transport.Base.Bytes.{Bytes, resize}
use sc_transport.Base.HashMap
use sc_transport.Base.HashMap.{HashMap}
use sc_transport.Crates.{Crates}
use sc_transport.Packet.{Packet}
use sc_transport.Wire.{ChunkDescriptor}
use sc_transport.Wire.Frame.{FrameError, encode}
use sc_transport.Sender.{frame_bytes}

pub record FecEncoder : Type 0 where
  pub data_shards : ℕ
  pub parity_shards : ℕ

-- `sort_by_key(|p| p.seq)`, which keeps the order of equal keys
unfoldable pub insert_by_seq : Packet → List Packet → List Packet
insert_by_seq p [] = p ∷ []
insert_by_seq p (q ∷ qs) =
    let rest = insert_by_seq p qs in if leb p.seq q.seq then p ∷ q ∷ qs else q ∷ rest

unfoldable pub sort_by_seq : List Packet → List Packet
sort_by_seq [] = []
sort_by_seq (p ∷ ps) = insert_by_seq p (sort_by_seq ps)

unfoldable pub max_payload : List Packet → ℕ
max_payload [] = 0
max_payload (p ∷ ps) = max (length p.payload) (max_payload ps)

-- the highest priority
unfoldable pub max_priority : List Packet → ℕ
max_priority [] = 0
max_priority (p ∷ ps) = max p.meta.priority (max_priority ps)

-- the earliest deadline, if there is one
unfoldable pub min_deadline : List Packet → Option ℕ
min_deadline [] = none
min_deadline (p ∷ ps) = elim p.meta.deadline [
  | none ↦ min_deadline ps
  | some d ↦ elim (min_deadline ps) [ none ↦ some d | some e ↦ some (min d e) ]
]

-- `block.last().map(|p| p.seq).unwrap_or(0)`
unfoldable pub last_seq : List Packet → ℕ
last_seq [] = 0
last_seq (p ∷ []) = p.seq
last_seq (_ ∷ q ∷ ps) = last_seq (q ∷ ps)

-- `block[0].fec_group`, of a block that is not empty
unfoldable pub first_group : List Packet → ℕ
first_group [] = 0
first_group (p ∷ _) = p.fec_group

module _ (lib : Crates) where
  -- the descriptor of a shard that goes out as it is
  unfoldable pub shard_descriptor : ℕ → ℕ → Bytes → Bool → ℕ → ℕ → ChunkDescriptor
  shard_descriptor index offset raw_shard is_parity parity_index fec_group = record {
    index = index;
    offset = offset;
    compressed_size = length raw_shard % 2 ^ 32;
    uncompressed_size = length raw_shard % 2 ^ 32;
    checksum = lib.hash raw_shard;
    was_compressed = false;
    is_parity = is_parity;
    parity_index = parity_index;
    fec_group = fec_group;
  }

  unfoldable pub frame_fec_wire_shard : ℕ → ℕ → Bytes → Bool → ℕ → ℕ → Result FrameError Bytes
  frame_fec_wire_shard index offset raw_shard is_parity parity_index fec_group = do
    desc_bytes ←
        encode lib.descriptors
          (shard_descriptor index offset raw_shard is_parity parity_index fec_group)
    ok (frame_bytes desc_bytes raw_shard)

  -- the index in the descriptor of a parity shard, which is no chunk's
  unfoldable pub parity_chunk_index : FecEncoder → ℕ → ℕ → ℕ
  parity_chunk_index enc fec_group i =
      saturating_sub (saturating_sub u64_max (saturating_mul fec_group (enc.parity_shards + 16))) i

  -- the packet of the parity row `i`
  unfoldable pub parity_packet : FecEncoder → List Packet → ℕ → Bytes → Result FrameError Packet
  parity_packet enc block i row = do
    let fec_group = first_group block
    framed ← frame_fec_wire_shard (parity_chunk_index enc fec_group i) 0 row true i fec_group
    ok (record {
      id = u64_max - i;
      seq = saturating_add (last_seq block) (1 + i);
      payload = framed;
      is_parity = true;
      meta = record {
        id = u64_max - i;
        priority = max_priority block;
        deadline = min_deadline block;
        size = length framed;
      };
      fec_group = fec_group;
      reconstructable = false;
      parity_index = i;
    })

  -- the packets of the parity rows, from the row `i` on
  unfoldable pub parity_packets :
      FecEncoder → List Packet → ℕ → List Bytes → Result FrameError (List Packet)
  parity_packets enc block i [] = ok []
  parity_packets enc block i (row ∷ rows) = parity_packet enc block i row >>= λ packet.
      parity_packets enc block (i + 1) rows >>= λ packets. ok (packet ∷ packets)

  -- the part of `encode_block` for a sorted block, whose longest payload has `len` bytes
  unfoldable pub encode_sorted : FecEncoder → ℕ → ℕ → List Packet → List Packet → List Packet
  encode_sorted enc n len block whole =
      if not (lib.rs_new n enc.parity_shards)
      then whole
      else elim (lib.rs_encode n enc.parity_shards
          (map (λ (p : Packet). resize len p.payload) block)) [
            | none ↦ whole
            | some rows ↦ elim (parity_packets enc block 0 rows) [
              | err _ ↦ whole
              | ok parity ↦ block ++ parity
            ]
          ]

  unfoldable pub encode_block : FecEncoder → List Packet → List Packet
  encode_block enc whole =
      let n = max enc.data_shards 1 in
      let block = sort_by_seq (take n whole) in
      let len = max_payload block in
      if length whole == 0
      then []
      else if enc.parity_shards == 0 || ltb (length whole) n
      then whole
      else if len == 0
      then block
      else encode_sorted enc n len block whole

-- `buf.iter().position(|x| x.seq == pkt.seq)` and the write there, or the push
unfoldable pub upsert : List Packet → Packet → List Packet
upsert [] pkt = pkt ∷ []
upsert (x ∷ buf) pkt = let rest = upsert buf pkt in if x.seq == pkt.seq then pkt ∷ buf else x ∷ rest

-- `or_default()`
abbrev pub or_default : Option (List Packet) → List Packet
or_default none = []
or_default (some buf) = buf

unfoldable pub stash_fec_packet : HashMap (List Packet) → ℕ → Packet → HashMap (List Packet)
stash_fec_packet pending g pkt =
    HashMap.put pending g (upsert (or_default (HashMap.get pending g)) pkt)

-- `packets.iter().position(|p| p.seq == idx)`
unfoldable pub position : List Packet → ℕ → Option ℕ
position [] idx = none
position (p ∷ ps) idx = if p.seq == idx then some 0 else Option.map suc (position ps idx)

unfoldable pub positions : List Packet → List ℕ → Option (List ℕ)
positions packets [] = some []
positions packets (idx ∷ indices) = elim (position packets idx) [
  | none ↦ none
  | some pos ↦ Option.map (◌∷◌ pos) (positions packets indices)
]

-- `sort_unstable_by(|a, b| b.cmp(a))`
unfoldable pub insert_descending : ℕ → List ℕ → List ℕ
insert_descending a [] = a ∷ []
insert_descending a (b ∷ bs) =
    let rest = insert_descending a bs in if leb b a then a ∷ b ∷ bs else b ∷ rest

unfoldable pub sort_descending : List ℕ → List ℕ
sort_descending [] = []
sort_descending (a ∷ as') = insert_descending a (sort_descending as')

-- `packets.remove(pos)`; the source panics where `none` stands.
unfoldable pub remove_at : List Packet → ℕ → Option (Packet × List Packet)
remove_at [] pos = none
remove_at (p ∷ ps) zero = some (p, ps)
remove_at (p ∷ ps) (suc pos) = Option.map (λ (q, rest). (q, p ∷ rest)) (remove_at ps pos)

-- what is removed, in the order of the positions, and what is left
unfoldable pub remove_all : List Packet → List ℕ → Option (List Packet × List Packet)
remove_all packets [] = some ([], packets)
remove_all packets (pos ∷ poss) = elim (remove_at packets pos) [
  | none ↦ none
  | some (p, rest) ↦ Option.map (λ (ps, left). (p ∷ ps, left)) (remove_all rest poss)
]

-- The block, and the packets that are left: `none` while a packet of the block has not come.
unfoldable pub drain_block : List Packet → ℕ → FecEncoder → Option (List Packet × List Packet)
drain_block packets fec_group fec =
    let n = max fec.data_shards 1 in
    let base = saturating_mul fec_group n in
    elim (positions packets (range_from base (saturating_add base n - base))) [
      | none ↦ none
      | some poss ↦ remove_all packets (sort_descending poss)
    ]

unfoldable pub drain_fec_block_from_packets :
    Crates → List Packet → ℕ → FecEncoder → Option (List Packet × List Packet)
drain_fec_block_from_packets lib packets fec_group fec =
    Option.map (λ (block, left). (encode_block lib fec block, left))
      (drain_block packets fec_group fec)

-- `FecDecoder::reconstructable_shards`, for a decoder of so many data shards
unfoldable pub reconstructable_shards : ℕ → List (Option Packet) → Bool
reconstructable_shards data_shards shards = leb data_shards (length (filter is_some shards))
