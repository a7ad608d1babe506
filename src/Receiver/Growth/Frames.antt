-- ===== src/Receiver/Growth/Frames.antt =====
-- No frame makes the receiver forget a chunk or count one twice.
use sc_transport.Base.{
  ℕ, ◌+◌, ap, max, ltb, ◌&&◌, saturating_sub, saturating_add, saturating_mul, ◌≡◌, refl, arith,
  Bool, Bool-cases, inl, inr, ◌⊎◌, ok, >>=-eq-ok,
}
use sc_transport.Base.Bytes.{Bytes, slice}
use sc_transport.Base.HashSet.{HashSet}
use sc_transport.Crates.{Crates}
use sc_transport.Wire.{TransferManifest, ChunkDescriptor}
use sc_transport.Receiver.{Received, parse_framed_header, persist_framed_chunk}
use sc_transport.Receiver.Fec.{Ingest, try_fec_group_recover}
use sc_transport.Receiver.Ingest.{
  ingest_wire_frame, ingest_parity, ingest_data, stash_data, put_shard,
}
use sc_transport.Receiver.Growth.{Grows, Grows-refl, Grows-trans, persist_framed_chunk-Grows}
use sc_transport.Receiver.Growth.Recovery.{
  IngestGrows, same-IngestGrows, try_fec_group_recover-Grows,
}

module _ (lib : Crates) (manifest : TransferManifest) (verify : Bool) where
  module _ (has_rs : Bool) (simulate_lost : HashSet) where
    received-put_shard :
        (g slot : ℕ) (shard : Bytes) (s : Ingest)
        → (put_shard manifest g slot shard s).received ≡ s.received
    unfolding put_shard
    received-put_shard g slot shard s = refl

    recovered-Grows :
        (g slot : ℕ) (shard : Bytes) (s : Ingest) {t : Ingest}
        → try_fec_group_recover lib manifest verify g (put_shard manifest g slot shard s) ≡ ok t
        → IngestGrows s t
    recovered-Grows g slot shard s h =
        rw (← ap (λ (r : Received). r.received_chunks) (received-put_shard g slot shard s))
          (try_fec_group_recover-Grows lib manifest verify g (put_shard manifest g slot shard s) h)

    ingest_parity-Grows :
        (desc : ChunkDescriptor) (payload : Bytes) (s : Ingest) {t : Ingest}
        → ingest_parity lib manifest has_rs verify simulate_lost desc payload s ≡ ok t
        → IngestGrows s t
    unfolding ingest_parity
    ingest_parity-Grows desc payload s {t} h =
        recovered-Grows desc.fec_group (saturating_add desc.parity_index manifest.data_shards)
          payload s {t = t} (ground arith)

    stash_data-Grows :
        (desc : ChunkDescriptor) (wire : Bytes) (s : Ingest) {t : Ingest}
        → stash_data lib manifest has_rs verify simulate_lost desc wire s ≡ ok t
        → IngestGrows s t
    unfolding stash_data
    stash_data-Grows desc wire s h =
        elim (Bool-cases (
          has_rs
          && ltb
              (saturating_sub desc.index
                (saturating_mul desc.fec_group (max manifest.data_shards 1)))
              manifest.data_shards)) [
                | inl slot ↦ recovered-Grows desc.fec_group _ wire s (rw (slot, stash_data) at h)
                | inr outside ↦ same-IngestGrows s (rw (outside, stash_data) at h)
              ]

    ingest_data-Grows :
        (desc : ChunkDescriptor) (wire : Bytes) (s : Ingest) {t : Ingest}
        → ingest_data lib manifest has_rs verify simulate_lost desc wire s ≡ ok t
        → IngestGrows s t
    unfolding ingest_data
    ingest_data-Grows desc wire s h =
        let (received, ran, rest) =
          >>=-eq-ok (persist_framed_chunk lib wire manifest verify s.received) _ h in
        Grows-trans (persist_framed_chunk-Grows lib manifest verify wire s.received ran)
          (stash_data-Grows desc wire (record s { received = received }) rest)

    ingest_cases :
        (wire : Bytes) (s : Ingest) {t : Ingest} {g : ℕ}
        → ingest_wire_frame lib manifest has_rs verify simulate_lost wire s ≡ ok (t, g)
        → (desc : ChunkDescriptor) × (payload : Bytes) × ((t ≡ s)
            ⊎ (ingest_parity lib manifest has_rs verify simulate_lost desc payload s ≡ ok t)
            ⊎ (ingest_data lib manifest has_rs verify simulate_lost desc wire s ≡ ok t))
    unfolding ingest_wire_frame
    ingest_cases wire s h =
        let ((desc, four, n), parsed, rest) = >>=-eq-ok (parse_framed_header lib wire) _ h in
        (desc, slice wire (4 + n) (4 + n + desc.compressed_size), ground arith)

    -- Whatever bytes arrive as a frame, with or without error correction: if the receiver takes
    -- the frame in without an error, every chunk that it had noted is still noted, and where no
    -- chunk was noted twice before, none is now.
    pub ingest_wire_frame-Grows :
        (wire : Bytes) (s : Ingest) {t : Ingest} {g : ℕ}
        → ingest_wire_frame lib manifest has_rs verify simulate_lost wire s ≡ ok (t, g)
        → Grows s.received.received_chunks t.received.received_chunks
    ingest_wire_frame-Grows wire s h =
        let (desc, payload, cases) = ingest_cases wire s h in
        elim cases [
          | inl same ↦ rw same (Grows-refl s.received.received_chunks)
          | inr (inl parity) ↦ ingest_parity-Grows desc payload s parity
          | inr (inr plain) ↦ ingest_data-Grows desc wire s plain
        ]
