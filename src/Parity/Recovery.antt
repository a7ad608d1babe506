-- ===== src/Parity/Recovery.antt =====
-- The receiver rebuilds the lost chunks of a group from the shards that it has, if the parity rows are
-- the sender's.
use mathlib.Core.Option
use sc_transport.Base.{
  ℕ, ◌-◌, ◌≤◌, ◌<◌, ◌≡◌, refl, ap, ◌∙◌, arith, Bool, true, false, ◌&&◌, some, List, [], ◌++◌, map,
  length, is_some, filter, range, replicate, ◌==◌, if◌then◌else◌, ok, Bool-cases, inl, inr,
}
use sc_transport.Base.Bytes.{Bytes, resize}
use sc_transport.Base.HashMap
use sc_transport.Base.HashSet.{contains}
use sc_transport.Crates.{Crates, IsFaithful}
use sc_transport.Wire.{TransferManifest}
use sc_transport.Packet.{Packet}
use sc_transport.Sender.{SenderConfig}
use sc_transport.Receiver.Assembly.{Agrees}
use sc_transport.Receiver.Deliver.{Announces}
use sc_transport.Receiver.Fec.{
  Shards, Ingest, max_len, fec_missing_data_slots, fec_recovery_ready, use_reconstructed,
  recover_group,
}
use sc_transport.Parity.{max_payload}
use sc_transport.Parity.Block.{
  payloads, data_rows, data_rows-HaveLength, payloads-AreWithin, map-resize-payloads,
  payload-le-max_payload,
}
use sc_transport.Parity.Shards.{
  PartOf, HaveLength, resize_lem, PartOf-map, max_len-PartOf, AreWithin-append, shard_at-map-some,
  contains-filter, contains-range_from, filter-is_some-map, get_elem?_inside, get_elem?-map,
}
use sc_transport.Parity.Slots.{IsEncoded, IsBack, recover_slots-noted, missing_none, is_missing}

-- What the Reed-Solomon code promises: the parity rows are as long as the data, and any `n` of the
-- shards, the parity rows that were computed included, give back the `n` data rows.
pub record RsReconstructs (lib : Crates) : Type 0 where
  pub length-parity :
      (n p len : ℕ) (rows parity : List Bytes)
      → lib.rs_encode n p rows ≡ some parity
      → HaveLength len rows
      → HaveLength len parity
  pub reconstruct :
      (n p : ℕ) (rows parity : List Bytes) (shards : Shards)
      → lib.rs_encode n p rows ≡ some parity
      → PartOf shards (rows ++ parity)
      → n ≤ length (filter is_some shards)
      → (rest : Shards) × (lib.rs_reconstruct_data n p shards ≡ some (map some rows ++ rest))

module _ (lib : Crates) (faithful : IsFaithful lib) (config : SenderConfig)
    (manifest : TransferManifest) (file : Bytes) (agreed : Announces config manifest file) (g : ℕ)
    (block : List Packet) (parity : List Bytes)
    (encoded : IsEncoded lib faithful config manifest file agreed g block parity)
    (rs : RsReconstructs lib) (group : Shards) where
  parity_long : HaveLength (max_payload block) parity
  parity_long =
      rs.length-parity manifest.data_shards manifest.parity_shards (max_payload block)
        (data_rows (max_payload block) block) parity encoded.coded
        (data_rows-HaveLength (max_payload block) block)

  longest :
      PartOf group (payloads block ++ parity)
      → max_payload block ≤ max_len group
      → max_len group ≡ max_payload block
  longest part reached =
      let bound = max_len-PartOf (max_payload block) group (payloads block ++ parity) part (
        AreWithin-append (max_payload block) (payloads block) parity
          (payloads-AreWithin (max_payload block) block (omega arith)) parity_long) in
      omega arith

  -- what the code gives back
  rebuilt :
      PartOf group (payloads block ++ parity)
      → max_payload block ≤ max_len group
      → manifest.data_shards ≤ length (filter is_some group)
      → (rest : Shards) × (lib.rs_reconstruct_data manifest.data_shards manifest.parity_shards
            (map (Option.map (resize (max_len group))) group)
          ≡ some (map some (data_rows (max_payload block) block) ++ rest))
  rebuilt part reached ready =
      let len = max_payload block in
      let rows = data_rows len block in
      let shards = map (Option.map (resize len)) group in
      let whole : PartOf shards (rows ++ parity) =
        rw (map-resize-payloads len block parity parity_long) at
          (PartOf-map (resize len) group (payloads block ++ parity) part) in
      rw (longest part reached) (
        rs.reconstruct manifest.data_shards manifest.parity_shards rows parity shards encoded.coded
          whole (omega (arith, filter-is_some-map (resize len) group)))

  back :
      (rest : Shards) (slot : ℕ)
      → slot < manifest.data_shards
      → IsBack lib faithful config manifest file agreed
          (map some (data_rows (max_payload block) block) ++ rest)
          g
          slot
  back rest slot inside =
      let len = max_payload block in
      let (p, there) = get_elem?_inside block slot (omega (arith, encoded.full)) in
      let (below, framed) = encoded.framed slot p there in
      let row = get_elem?-map (λ (q : Packet). resize len q.payload) block slot there in
      (
        p.payload,
        replicate (len - length p.payload) 0,
        framed,
        shard_at-map-some (data_rows len block) rest slot row
            ∙ ap some (resize_lem len p.payload (payload-le-max_payload block slot there)),
        omega (arith, encoded.small),
        below,
      )

  ready_enough :
      fec_recovery_ready group manifest ≡ true
      → manifest.data_shards ≤ length (filter is_some group)
  unfolding fec_recovery_ready
  ready_enough ready = ground arith

  -- the slots that are missing, after they have been rebuilt
  use_reconstructed-missing :
      (verify : Bool) (rest : Shards) (s : Ingest)
      → Agrees config file s.received
      → length file ≤ s.received.out.capacity
      → (t : Ingest) × (use_reconstructed lib manifest verify g group
            (map some (data_rows (max_payload block) block) ++ rest)
            (fec_missing_data_slots group manifest g s.received.received_chunks)
            s
          ≡ ok t)
        × Agrees config file t.received
        × (fec_missing_data_slots group manifest g t.received.received_chunks ≡ [])
  unfolding use_reconstructed
  use_reconstructed-missing verify rest s agrees room =
      let shards = map some (data_rows (max_payload block) block) ++ rest in
      let missing = fec_missing_data_slots group manifest g s.received.received_chunks in
      let (t, any', ran, agrees', keeps, all) =
        recover_slots-noted lib faithful config manifest file agreed verify g shards missing
          s.received false encoded.positive (λ slot h. back rest slot (missing_inside slot h))
          agrees room in
      let none_left =
        missing_none lib faithful config manifest file agreed group g s.received t encoded.positive
          encoded.small keeps all in
      (
        record {
          received = t;
          fec_groups =
              if any' && length (fec_missing_data_slots group manifest g t.received_chunks) == 0
              then HashMap.remove s.fec_groups g
              else s.fec_groups;
        },
        rw ran refl,
        agrees',
        none_left,
      )
    where
      missing_inside :
          (slot : ℕ)
          → contains (fec_missing_data_slots group manifest g s.received.received_chunks) slot
            ≡ true
          → slot < manifest.data_shards
      missing_inside slot h =
          let c =
            contains-filter (is_missing lib faithful config manifest file agreed group g s.received)
              (range manifest.data_shards) slot (unfold fec_missing_data_slots is_missing in h) in
          omega (arith, contains-range_from 0 manifest.data_shards slot c)

  -- For a file on which both sides agree, faithful libraries, and a Reed-Solomon code that gives
  -- the data back from any `data_shards` of the shards: take a complete group of the file's chunks
  -- and the parity rows that are made of their frames. Where the receiver has some of these
  -- shards, one of the longest among them, and `fec_recovery_ready` lets it try, the recovery ends
  -- without an error. Every chunk that is noted then has the bytes of the file, and no data slot
  -- of the group is missing.
  pub recover_group-missing :
      (verify : Bool) (s : Ingest)
      → PartOf group (payloads block ++ parity)
      → max_payload block ≤ max_len group
      → fec_recovery_ready group manifest ≡ true
      → Agrees config file s.received
      → length file ≤ s.received.out.capacity
      → (t : Ingest) × (recover_group lib manifest verify g group s ≡ ok t)
        × Agrees config file t.received
        × (fec_missing_data_slots group manifest g t.received.received_chunks ≡ [])
  unfolding recover_group
  recover_group-missing verify s part longest ready agrees room =
      let missing = fec_missing_data_slots group manifest g s.received.received_chunks in
      elim (Bool-cases (length missing == 0)) [
        | inl nothing ↦ (s, rw nothing refl, agrees, ground (arith, nothing))
        | inr something ↦
            (let (rest, built) = rebuilt part longest (ready_enough ready) in
              let (t, used, agrees', none_left) =
                use_reconstructed-missing verify rest s agrees room in
              let long : (max_len group == 0) ≡ false = ground (arith, longest, encoded.nonempty) in
              (t, rw (something, ready, long, built) used, agrees', none_left))
      ]
