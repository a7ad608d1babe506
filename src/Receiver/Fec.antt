-- ===== src/Receiver/Fec.antt =====
-- The recovery of lost data chunks from the shards of their group, as in `fec_missing_data_slots`,
-- `fec_recovery_ready` and `try_fec_group_recover` of crates/sct-core/src/receiver/mod.rs.
use mathlib.Core.Option
use sc_transport.Base.{
  ℕ, ◌+◌, max, Bool, true, false, not, ◌&&◌, ◌||◌, Option, none, some, List, [], ◌∷◌, map, length,
  get_elem?, is_some, filter, range, leb, ◌==◌, if◌then◌else◌, saturating_add, saturating_mul,
  Result, ok, err, ◌>>=◌,
}
use sc_transport.Base.Bytes.{Bytes, resize}
use sc_transport.Base.HashMap
use sc_transport.Base.HashMap.{HashMap}
use sc_transport.Base.HashSet.{HashSet, contains}
use sc_transport.Crates.{Crates}
use sc_transport.Wire.{TransferManifest}
use sc_transport.Receiver.{ReceiveError, Received, peek_framed_chunk_index, persist_framed_chunk}

-- The shards of one group, data first; `none` is a shard that has not come.
abbrev pub Shards : Type 0
Shards = List (Option Bytes)

-- `shards.get(i).and_then(|s| s.as_ref())`
abbrev pub shard_at : Shards → ℕ → Option Bytes
shard_at group i = elim (get_elem? group i) [ none ↦ none | some s ↦ s ]

-- the chunk of a data slot
abbrev pub chunk_index : TransferManifest → ℕ → ℕ → ℕ
chunk_index manifest fec_group slot =
    saturating_add (saturating_mul fec_group (max manifest.data_shards 1)) slot

unfoldable pub fec_missing_data_slots : Shards → TransferManifest → ℕ → HashSet → List ℕ
fec_missing_data_slots group manifest fec_group received_chunks =
    filter
      (λ slot.
        not (contains received_chunks (chunk_index manifest fec_group slot))
        && not (is_some (shard_at group slot)))
      (range manifest.data_shards)

unfoldable pub fec_recovery_ready : Shards → TransferManifest → Bool
fec_recovery_ready group manifest =
    let total = manifest.data_shards + manifest.parity_shards in
    let data_present =
      length (filter (λ i. is_some (shard_at group i)) (range manifest.data_shards)) in
    if not (length group == total)
    then false
    else if data_present == 0
    then false
    else leb manifest.data_shards (length (filter is_some group))

-- the length of the longest shard
unfoldable pub max_len : Shards → ℕ
max_len [] = 0
max_len (none ∷ group) = max_len group
max_len (some s ∷ group) = max (length s) (max_len group)

-- What changes while wire frames come in.
pub record Ingest : Type 0 where
  pub received : Received
  pub fec_groups : HashMap Shards

module _ (lib : Crates) (manifest : TransferManifest) (verify_checksums : Bool) where
  -- one round of the loop over the missing slots; the flag is `recovered_any`
  unfoldable pub recover_slot :
      ℕ → Shards → ℕ → Received × Bool → Result ReceiveError (Received × Bool)
  recover_slot fec_group shards slot (s, recovered_any) = elim (shard_at shards slot) [
    | none ↦ ok (s, recovered_any)
    | some bytes ↦ elim (peek_framed_chunk_index lib bytes) [
      | err _ ↦ ok (s, recovered_any)
      | ok recovered_index ↦
          if not (recovered_index == chunk_index manifest fec_group slot)
          then ok (s, recovered_any)
          else (do s' ← persist_framed_chunk lib bytes manifest verify_checksums s; ok (s', true))
    ]
  ]

  unfoldable pub recover_slots :
      ℕ → Shards → List ℕ → Received × Bool → Result ReceiveError (Received × Bool)
  recover_slots fec_group shards [] s = ok s
  recover_slots fec_group shards (slot ∷ missing) s =
      recover_slot fec_group shards slot s >>= λ s'. recover_slots fec_group shards missing s'

  -- the part of `try_fec_group_recover` after the reconstruction
  unfoldable pub use_reconstructed :
      ℕ → Shards → Shards → List ℕ → Ingest → Result ReceiveError Ingest
  use_reconstructed fec_group group shards missing s = do
    (received, recovered_any) ← recover_slots fec_group shards missing (s.received, false)
    let still_missing = fec_missing_data_slots group manifest fec_group received.received_chunks
    ok (record {
      received = received;
      fec_groups =
          if recovered_any && length still_missing == 0
          then HashMap.remove s.fec_groups fec_group
          else s.fec_groups;
    })

  unfoldable pub recover_group : ℕ → Shards → Ingest → Result ReceiveError Ingest
  recover_group fec_group group s =
      let missing = fec_missing_data_slots group manifest fec_group s.received.received_chunks in
      if length missing == 0 || not (fec_recovery_ready group manifest)
      then ok s
      else if max_len group == 0
      then ok s
      else elim (lib.rs_reconstruct_data manifest.data_shards manifest.parity_shards
          (map (Option.map (resize (max_len group))) group)) [
            | none ↦ ok s
            | some shards ↦ use_reconstructed fec_group group shards missing s
          ]

  unfoldable pub try_fec_group_recover : ℕ → Ingest → Result ReceiveError Ingest
  try_fec_group_recover fec_group s = elim (HashMap.get s.fec_groups fec_group) [
    | none ↦ ok s
    | some group ↦ recover_group fec_group group s
  ]
