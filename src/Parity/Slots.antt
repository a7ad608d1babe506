-- ===== src/Parity/Slots.antt =====
-- One group of shards: the slots whose chunks come back are noted, and then none is missing.
use sc_transport.Base.{
  ℕ, ◌+◌, ◌*◌, ◌≤◌, ◌<◌, max, ◌≡◌, refl, ◌∙◌, arith, Bool, true, false, not, ◌&&◌, some, List, [],
  ◌∷◌, ◌++◌, length, get_elem?, is_some, range, ◌==◌, u64_max, ok, Bool-cases, inl, inr, ==_refl,
  ==_iff,
}
use sc_transport.Base.Bytes.{Bytes}
use sc_transport.Base.HashSet.{contains, contains-insert}
use sc_transport.Crates.{Crates, IsFaithful}
use sc_transport.Wire.{TransferManifest}
use sc_transport.Packet.{Packet}
use sc_transport.Sender.{SenderConfig, num_chunks, frame_chunk, chunk_descriptor}
use sc_transport.Receiver.{Received, persist_framed_chunk, peek_framed_chunk_index}
use sc_transport.Receiver.Header.{peek_framed_chunk_index-frame_bytes}
use sc_transport.Receiver.Persist.{persist_framed_chunk-frame_chunk, frame_chunk_parts}
use sc_transport.Receiver.Assembly.{chunk, noted, Agrees, Agrees-noted}
use sc_transport.Receiver.Deliver.{Announces, stored_raw-noted, length-chunk-le}
use sc_transport.Receiver.Fec.{
  Shards, shard_at, chunk_index, fec_missing_data_slots, recover_slot, recover_slots,
}
use sc_transport.Parity.{max_payload}
use sc_transport.Parity.Block.{data_rows}
use sc_transport.Parity.Shards.{filter-contains, filter_none, contains-range_from}

module _ (lib : Crates) (faithful : IsFaithful lib) (config : SenderConfig)
    (manifest : TransferManifest) (file : Bytes) (agreed : Announces config manifest file) where
  -- the chunk of a slot of a group
  abbrev pub slot_chunk : ℕ → ℕ → ℕ
  slot_chunk g slot = g * manifest.data_shards + slot

  -- The packets of a complete group of the file's chunks, and the parity rows that are made of them.
  pub record IsEncoded (g : ℕ) (block : List Packet) (parity : List Bytes) : Type 0 where
    pub positive : 0 < manifest.data_shards
    pub full : length block ≡ manifest.data_shards
    pub small : slot_chunk g manifest.data_shards ≤ u64_max
    pub framed :
        (slot : ℕ) (p : Packet)
        → get_elem? block slot ≡ some p
        → (slot_chunk g slot < num_chunks config (length file))
          × (frame_chunk lib config
                (slot_chunk g slot)
                (chunk config file (slot_chunk g slot))
                manifest
              ≡ ok p.payload)
    pub nonempty : 0 < max_payload block
    pub coded :
        lib.rs_encode manifest.data_shards manifest.parity_shards
          (data_rows (max_payload block) block)
        ≡ some parity

  pub chunk_index_lem :
      (g slot : ℕ)
      → 0 < manifest.data_shards
      → slot_chunk g slot ≤ u64_max
      → chunk_index manifest g slot ≡ slot_chunk g slot
  chunk_index_lem g slot pos small =
      let e : max manifest.data_shards 1 ≡ manifest.data_shards = omega arith in rw e (omega arith)

  -- one slot, with a shard that is the frame of the slot's chunk, with zeros behind it
  recover_slot-noted :
      (verify : Bool) (g slot : ℕ) (shards : Shards) (wire pad : Bytes) (s : Received) (any : Bool)
      → frame_chunk lib config (slot_chunk g slot) (chunk config file (slot_chunk g slot)) manifest
        ≡ ok wire
      → shard_at shards slot ≡ some (wire ++ pad)
      → 0 < manifest.data_shards
      → slot_chunk g slot ≤ u64_max
      → slot_chunk g slot < num_chunks config (length file)
      → length file ≤ s.out.capacity
      → recover_slot lib manifest verify g shards slot (s, any)
        ≡ ok (noted config file (slot_chunk g slot) s, true)
  unfolding recover_slot chunk_descriptor
  recover_slot-noted verify g slot shards wire pad s any framed there pos small inside room =
      let idx = slot_chunk g slot in
      let raw = chunk config file idx in
      let (packed, desc_bytes, compressed, encoded, w) =
        frame_chunk_parts lib faithful config manifest agreed.compression idx raw framed in
      let desc = chunk_descriptor lib config manifest idx raw packed in
      let peeked : peek_framed_chunk_index lib (wire ++ pad) ≡ ok idx =
        rw w
          (peek_framed_chunk_index-frame_bytes lib faithful desc desc_bytes packed pad encoded) in
      let place : (idx == chunk_index manifest g slot) ≡ true =
        rw (chunk_index_lem g slot pos small) (==_refl idx) in
      let stored : persist_framed_chunk lib (wire ++ pad) manifest verify s
          ≡ ok (noted config file idx s) =
        persist_framed_chunk-frame_chunk lib faithful config manifest agreed.compression idx raw pad
          verify s framed
          (omega
            (arith, length-chunk-le lib faithful config manifest file agreed idx, agreed.small))
        ∙ stored_raw-noted lib faithful config manifest file agreed idx s inside room in
      ground (arith, there, peeked, place, stored)

  -- A slot whose shard has come back, with zeros behind the frame.
  abbrev pub IsBack : Shards → ℕ → ℕ → Type 0
  IsBack shards g slot =
      (wire pad : Bytes) × (frame_chunk lib config (slot_chunk g slot)
          (chunk config file (slot_chunk g slot)) manifest
        ≡ ok wire)
      × (shard_at shards slot ≡ some (wire ++ pad))
      × (slot_chunk g slot ≤ u64_max)
      × (slot_chunk g slot < num_chunks config (length file))

  -- What is noted in `s` is noted in `t`.
  abbrev pub Keeps : Received → Received → Type 0
  Keeps s t = (i : ℕ) → contains s.received_chunks i ≡ true → contains t.received_chunks i ≡ true

  noted-Keeps : (idx : ℕ) (s : Received) → Keeps s (noted config file idx s)
  noted-Keeps idx s i h = ground (arith, contains-insert s.received_chunks idx i, h)

  contains-noted :
      (idx : ℕ) (s : Received) → contains (noted config file idx s).received_chunks idx ≡ true
  contains-noted idx s = ground (arith, contains-insert s.received_chunks idx idx)

  noted_capacity :
      (idx : ℕ) (s : Received) → (noted config file idx s).out.capacity ≡ s.out.capacity
  noted_capacity idx s = ground arith

  pub recover_slots-noted :
      (verify : Bool) (g : ℕ) (shards : Shards) (slots : List ℕ) (s : Received) (any : Bool)
      → 0 < manifest.data_shards
      → ((slot : ℕ) → contains slots slot ≡ true → IsBack shards g slot)
      → Agrees config file s
      → length file ≤ s.out.capacity
      → (t : Received) × (any' : Bool) × (recover_slots lib manifest verify g shards slots (s, any)
          ≡ ok (t, any'))
        × Agrees config file t
        × Keeps s t
        × ((slot : ℕ)
            → contains slots slot ≡ true
            → contains t.received_chunks (slot_chunk g slot) ≡ true)
  unfolding recover_slots contains
  recover_slots-noted verify g shards [] s any pos back agrees room =
      (s, any, refl, agrees, λ i h. h, λ slot h. cc)
  recover_slots-noted verify g shards (slot ∷ slots) s any pos back agrees room =
      let (wire, pad, framed, there, small, inside) = back slot (ground (arith, ==_refl slot)) in
      let idx = slot_chunk g slot in
      let s' = noted config file idx s in
      let step : recover_slot lib manifest verify g shards slot (s, any) ≡ ok (s', true) =
        recover_slot-noted verify g slot shards wire pad s any framed there pos small inside room in
      let (t, any', rest, agrees', keeps, all) =
        recover_slots-noted verify g shards slots s' true pos
          (λ other h. back other (ground (arith, h)))
          (Agrees-noted config agreed.positive file idx inside s agrees)
          (omega (arith, noted_capacity idx s)) in
      (
        t,
        any',
        rw step rest,
        agrees',
        λ i h. keeps i (noted-Keeps idx s i h),
        λ other h. elim (Bool-cases (slot == other)) [
          | inl same ↦ rw (← (==_iff slot other).0 same) (keeps idx (contains-noted idx s))
          | inr apart ↦ all other (ground (arith, apart, h))
        ],
      )

  -- the test of `fec_missing_data_slots`
  unfoldable pub is_missing : Shards → ℕ → Received → ℕ → Bool
  is_missing group g s slot =
      not (contains s.received_chunks (chunk_index manifest g slot))
      && not (is_some (shard_at group slot))

  -- Nothing is missing after the recovery of all that was missing.
  pub missing_none :
      (group : Shards) (g : ℕ) (s t : Received)
      → 0 < manifest.data_shards
      → slot_chunk g manifest.data_shards ≤ u64_max
      → Keeps s t
      → ((slot : ℕ)
          → contains (fec_missing_data_slots group manifest g s.received_chunks) slot ≡ true
          → contains t.received_chunks (slot_chunk g slot) ≡ true)
      → fec_missing_data_slots group manifest g t.received_chunks ≡ []
  unfolding fec_missing_data_slots is_missing
  missing_none group g s t pos small keeps all =
      filter_none (is_missing group g t) (range manifest.data_shards) (λ slot c.
        let place : chunk_index manifest g slot ≡ slot_chunk g slot =
          chunk_index_lem g slot pos
            (omega (arith, contains-range_from 0 manifest.data_shards slot c)) in
        elim (Bool-cases (contains t.received_chunks (slot_chunk g slot))) [
          | inl there ↦ rw (place, there) refl
          | inr lost ↦ elim (Bool-cases (is_some (shard_at group slot))) [
            | inl come ↦ rw come (ground arith)
            | inr away ↦
                (let fresh : contains s.received_chunks (slot_chunk g slot) ≡ false =
                    ground (arith, keeps (slot_chunk g slot), lost) in
                  let counted : is_missing group g s slot ≡ true = rw (place, fresh, away) refl in
                  let found = all slot (
                    filter-contains (is_missing group g s) (range manifest.data_shards) slot counted
                      c) in
                  ground (arith, found, lost))
          ]
        ])
