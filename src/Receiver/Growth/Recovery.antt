-- ===== src/Receiver/Growth/Recovery.antt =====
-- The recovery of a group of shards forgets no chunk and counts none twice.
use mathlib.Core.Option
use sc_transport.Base.{
  ℕ, map, ◌≡◌, arith, Bool, false, List, [], ◌∷◌, Option-cases, some, inl, inr, ◌⊎◌, Result, ok,
  >>=-eq-ok,
}
use sc_transport.Base.Bytes.{Bytes, resize}
use sc_transport.Base.HashMap
use sc_transport.Crates.{Crates}
use sc_transport.Wire.{TransferManifest}
use sc_transport.Receiver.{ReceiveError, Received, persist_framed_chunk}
use sc_transport.Receiver.Fec.{
  Ingest, Shards, shard_at, max_len, fec_missing_data_slots, recover_slot, recover_slots,
  use_reconstructed, recover_group, try_fec_group_recover,
}
use sc_transport.Receiver.Growth.{Grows, Grows-refl, Grows-trans, persist_framed_chunk-Grows}

abbrev pub IngestGrows : Ingest → Ingest → Type 0
IngestGrows s t = Grows s.received.received_chunks t.received.received_chunks

pub same-IngestGrows :
    (s : Ingest) {t : Ingest} → ◌≡◌ {A = Result ReceiveError Ingest} (ok s) (ok t) → IngestGrows s t
same-IngestGrows s {t} h =
    let same : s ≡ t = ground arith in rw (← same) (Grows-refl s.received.received_chunks)

module _ (lib : Crates) (manifest : TransferManifest) (verify : Bool) where
  recover_cases :
      (g : ℕ) (shards : Shards) (slot : ℕ) (s : Received) (any : Bool) {t : Received} {any' : Bool}
      → recover_slot lib manifest verify g shards slot (s, any) ≡ ok (t, any')
      → (t ≡ s) ⊎ ((bytes : Bytes) × (persist_framed_chunk lib bytes manifest verify s ≡ ok t))
  unfolding recover_slot
  recover_cases g shards slot s any {t} h = elim (Option-cases (shard_at shards slot)) [
    | inl lost ↦ inl (ground (arith, lost))
    | inr (bytes, there) ↦ elim (recovered bytes there) [
      | inl same ↦ inl same
      | inr stored ↦ inr (bytes, stored)
    ]
  ]
    where
      recovered :
          (bytes : Bytes)
          → shard_at shards slot ≡ some bytes
          → (t ≡ s) ⊎ (persist_framed_chunk lib bytes manifest verify s ≡ ok t)
      recovered bytes there = ground (arith, there, h)

  recover_slot-Grows :
      (g : ℕ) (shards : Shards) (slot : ℕ) (s : Received) (any : Bool) {t : Received} {any' : Bool}
      → recover_slot lib manifest verify g shards slot (s, any) ≡ ok (t, any')
      → Grows s.received_chunks t.received_chunks
  recover_slot-Grows g shards slot s any h = elim (recover_cases g shards slot s any h) [
    | inl same ↦ rw same (Grows-refl s.received_chunks)
    | inr (bytes, stored) ↦ persist_framed_chunk-Grows lib manifest verify bytes s stored
  ]

  recover_slots-Grows :
      (g : ℕ) (shards : Shards) (slots : List ℕ) (s : Received) (any : Bool) {t : Received}
      {any' : Bool}
      → recover_slots lib manifest verify g shards slots (s, any) ≡ ok (t, any')
      → Grows s.received_chunks t.received_chunks
  unfolding recover_slots
  recover_slots-Grows g shards [] s any {t} h =
      let same : s ≡ t = ground arith in rw (← same) (Grows-refl s.received_chunks)
  recover_slots-Grows g shards (slot ∷ slots) s any h =
      let ((s', any'), first, rest) =
        >>=-eq-ok (recover_slot lib manifest verify g shards slot (s, any)) _ h in
      Grows-trans (recover_slot-Grows g shards slot s any first)
        (recover_slots-Grows g shards slots s' any' rest)

  use_reconstructed-Grows :
      (g : ℕ) (group shards : Shards) (missing : List ℕ) (s : Ingest) {t : Ingest}
      → use_reconstructed lib manifest verify g group shards missing s ≡ ok t
      → IngestGrows s t
  unfolding use_reconstructed
  use_reconstructed-Grows g group shards missing s {t} h =
      let ((s', any'), ran, rest) =
        >>=-eq-ok (recover_slots lib manifest verify g shards missing (s.received, false)) _ h in
      let e : s' ≡ t.received = ground arith in
      rw (← e) (recover_slots-Grows g shards missing s.received false ran)

  recover_group_cases :
      (g : ℕ) (group : Shards) (s : Ingest) {t : Ingest}
      → recover_group lib manifest verify g group s ≡ ok t
      → (t ≡ s)
        ⊎ ((shards : Shards) × (use_reconstructed lib manifest verify g group shards
                (fec_missing_data_slots group manifest g s.received.received_chunks)
                s
              ≡ ok t))
  unfolding recover_group
  recover_group_cases g group s {t} h =
      elim (Option-cases (
        lib.rs_reconstruct_data manifest.data_shards manifest.parity_shards
          (map (Option.map (resize (max_len group))) group))) [
            | inl refused ↦ inl (ground (arith, refused))
            | inr (shards, built) ↦ elim (used shards built) [
              | inl same ↦ inl same
              | inr ran ↦ inr (shards, ran)
            ]
          ]
    where
      used :
          (shards : Shards)
          → lib.rs_reconstruct_data manifest.data_shards manifest.parity_shards
              (map (Option.map (resize (max_len group))) group)
            ≡ some shards
          → (t ≡ s)
            ⊎ (use_reconstructed lib manifest verify g group shards
                  (fec_missing_data_slots group manifest g s.received.received_chunks)
                  s
                ≡ ok t)
      used shards built = ground (arith, built, h)

  pub try_fec_group_recover-Grows :
      (g : ℕ) (s : Ingest) {t : Ingest}
      → try_fec_group_recover lib manifest verify g s ≡ ok t
      → IngestGrows s t
  unfolding try_fec_group_recover
  try_fec_group_recover-Grows g s {t} h = elim (Option-cases (HashMap.get s.fec_groups g)) [
    | inl absent ↦ same-IngestGrows s (rw (absent, try_fec_group_recover) at h)
    | inr (group, there) ↦
        elim (recover_group_cases g group s (rw (there, try_fec_group_recover) at h)) [
          | inl same ↦ rw same (Grows-refl s.received.received_chunks)
          | inr (shards, ran) ↦
              use_reconstructed-Grows g group shards
                (fec_missing_data_slots group manifest g s.received.received_chunks) s ran
        ]
  ]
