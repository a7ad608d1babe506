-- ===== src/Packet.antt =====
-- The packets and blocks of crates/sct-core/src/adaptive/mod.rs. A point of time, and a duration, is
-- a number of nanoseconds.
use sc_transport.Base.{
  ℕ, ◌+◌, Bool, false, Option, none, some, leb, ◌||◌, saturating_sub, is_some, max, min,
}
use sc_transport.Base.Bytes.{Bytes}

pub record PacketMeta : Type 0 where
  pub id : ℕ
  pub priority : ℕ
  pub deadline : Option ℕ
  pub size : ℕ

pub record Packet : Type 0 where
  pub id : ℕ
  pub seq : ℕ
  pub payload : Bytes
  pub is_parity : Bool
  pub meta : PacketMeta
  pub fec_group : ℕ
  pub reconstructable : Bool
  pub parity_index : ℕ

unfoldable pub is_critical : Packet → Bool
is_critical p = leb 200 p.meta.priority || is_some p.meta.deadline

-- at the time `now`
unfoldable pub nearing_deadline : Packet → ℕ → Bool
nearing_deadline p now = elim p.meta.deadline [ none ↦ false | some d ↦ leb d (now + 15_000_000) ]

pub record Block : Type 0 where
  pub id : ℕ
  pub total_shards : ℕ
  pub required_shards : ℕ
  pub sent_shards : ℕ
  pub received_acks : ℕ
  pub in_flight : ℕ

unfoldable pub is_complete : Block → Bool
is_complete b = leb b.required_shards b.received_acks

unfoldable pub is_almost_complete : Block → Bool
is_almost_complete b = leb (saturating_sub b.required_shards b.received_acks) 1

unfoldable pub remaining_data_shards : Block → ℕ
remaining_data_shards b =
    let pipeline = min b.sent_shards b.required_shards in
    saturating_sub b.required_shards (max b.received_acks pipeline)
