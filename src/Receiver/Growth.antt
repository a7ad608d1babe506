-- ===== src/Receiver/Growth.antt =====
-- Whatever is stored, valid or not: no chunk that was noted is forgotten, and none is counted twice.
pub mod Recovery
pub mod Frames
use mathlib.Core.Option
use sc_transport.Base.{
  ℕ, ◌+◌, ap, map, max, ltb, ◌&&◌, saturating_sub, saturating_add, saturating_mul, ◌≡◌, refl, arith,
  Bool, true, false, List, [], ◌∷◌, Option-cases, some, Bool-cases, inl, inr, ◌⊎◌, Result, ok,
  >>=-eq-ok,
}
use sc_transport.Base.Bytes.{Bytes, slice, resize}
use sc_transport.Base.HashMap
use sc_transport.Base.HashSet.{
  HashSet, contains, insert, IsDistinct, contains-insert, insert-IsDistinct,
}
use sc_transport.Crates.{Crates}
use sc_transport.Wire.{TransferManifest, ChunkDescriptor}
use sc_transport.Receiver.{
  ReceiveError, Received, parse_framed_header, store_chunk, persist_data_chunk,
  persist_framed_chunk,
}
use sc_transport.Receiver.Fec.{
  Ingest, Shards, shard_at, max_len, fec_missing_data_slots, recover_slot, recover_slots,
  use_reconstructed, recover_group, try_fec_group_recover,
}
use sc_transport.Receiver.Ingest.{
  ingest_wire_frame, ingest_parity, ingest_data, stash_data, put_shard,
}

-- `t` has all of `s`, and no repetition if `s` has none.
pub record Grows (s t : HashSet) : Type 0 where
  pub keeps : (i : ℕ) → contains s i ≡ true → contains t i ≡ true
  pub distinct : IsDistinct s → IsDistinct t

pub Grows-refl : (s : HashSet) → Grows s s
Grows-refl s = record { keeps = λ i h. h; distinct = λ h. h }

pub Grows-trans : {s t u : HashSet} → Grows s t → Grows t u → Grows s u
Grows-trans g h = record {
  keeps = λ i c. h.keeps i (g.keeps i c);
  distinct = λ d. h.distinct (g.distinct d);
}

Grows-insert : (s : HashSet) (a : ℕ) → Grows s (insert s a)
Grows-insert s a = record {
  keeps = λ i h. ground (arith, contains-insert s a i, h);
  distinct = insert-IsDistinct s a;
}

module _ (lib : Crates) (manifest : TransferManifest) (verify : Bool) where
  store_chunk-Grows :
      (desc : ChunkDescriptor) (payload : Bytes) (s : Received) {t : Received}
      → store_chunk lib manifest desc payload s ≡ ok t
      → Grows s.received_chunks t.received_chunks
  unfolding store_chunk
  store_chunk-Grows desc payload s {t} h =
      let e : t.received_chunks ≡ insert s.received_chunks desc.index = ground arith in
      rw e (Grows-insert s.received_chunks desc.index)

  persist_data_chunk_cases :
      (desc : ChunkDescriptor) (off : ℕ) (wire : Bytes) (s : Received) {t : Received}
      → persist_data_chunk lib desc off wire manifest verify s ≡ ok t
      → (t ≡ s)
        ⊎ (store_chunk lib manifest desc (slice wire off (off + desc.compressed_size)) s ≡ ok t)
  unfolding persist_data_chunk
  persist_data_chunk_cases desc off wire s h = ground arith

  persist_data_chunk-Grows :
      (desc : ChunkDescriptor) (off : ℕ) (wire : Bytes) (s : Received) {t : Received}
      → persist_data_chunk lib desc off wire manifest verify s ≡ ok t
      → Grows s.received_chunks t.received_chunks
  persist_data_chunk-Grows desc off wire s h = elim (persist_data_chunk_cases desc off wire s h) [
    | inl same ↦ rw same (Grows-refl s.received_chunks)
    | inr stored ↦ store_chunk-Grows desc (slice wire off (off + desc.compressed_size)) s stored
  ]

  pub persist_framed_chunk-Grows :
      (wire : Bytes) (s : Received) {t : Received}
      → persist_framed_chunk lib wire manifest verify s ≡ ok t
      → Grows s.received_chunks t.received_chunks
  unfolding persist_framed_chunk
  persist_framed_chunk-Grows wire s {t} h =
      let (header, _, rest) = >>=-eq-ok (parse_framed_header lib wire) _ h in
      elim (Bool-cases header.0.is_parity) [
        | inl parity ↦ let same : s ≡ t = ground arith in rw (← same) (Grows-refl s.received_chunks)
        | inr plain ↦
            persist_data_chunk-Grows header.0 (header.1 + header.2) wire s (rw plain at rest)
      ]
