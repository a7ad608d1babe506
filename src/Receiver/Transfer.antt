-- ===== src/Receiver/Transfer.antt =====
-- `accept_transfer` of crates/sct-core/src/receiver/mod.rs: the handshake, the loop over incoming
-- frames, and the end of a transfer. What the connection delivers is a list of events; the feedback
-- frames, which change nothing that the receiver reads, are left out.
use sc_transport.Base.{
  ℕ, ◌+◌, ◌-◌, ◌*◌, ◌%◌, max, min, Bool, true, false, not, ◌&&◌, ◌||◌, Option, none, some, List, [],
  ◌∷◌, length, take, drop, map, replicate, range, leb, ltb, ◌==◌, if◌then◌else◌, saturating_add,
  saturating_mul, div_ceil, Result, ok, err, ◌>>=◌, ◌>>◌, reject_if,
}
use sc_transport.Base.Bytes.{Bytes, resize, same}
use sc_transport.Base.HashSet.{HashSet, insert}
use sc_transport.Crates.{Crates}
use sc_transport.Wire.{TransferManifest, ManifestAck, FinalAck, TransferComplete}
use sc_transport.Receiver.{ReceiveError}
use sc_transport.Receiver.Fec.{Ingest}
use sc_transport.Receiver.Ingest.{ingest_wire_frame}

pub record ReceiverConfig : Type 0 where
  pub max_parallel_chunks : ℕ
  pub verify_checksums : Bool
  pub resume_partial : Bool

-- What an earlier, interrupted transfer left: the bytes of the `.part` file, and the indices in the
-- `.state.json` file where that file is there and can be read.
pub record Leftover : Type 0 where
  pub part : Option Bytes
  pub state : Option (List ℕ)

-- What one turn of the `select!` gets.
pub data Event : Type 0 where
  joined datagram : Bytes → Event
  accepted join_failed datagram_failed accept_failed : Event

pub record Loop : Type 0 where
  pub ingest : Ingest
  pub accepted_streams : ℕ
  pub inflight : ℕ
  pub state : Option (List ℕ)

-- Where the loop stands when the events so far are used up.
pub data Outcome : Type 0 where
  complete waiting : Loop → Outcome

unfoldable pub extend : HashSet → List ℕ → HashSet
extend s [] = s
extend s (x ∷ xs) = extend (insert s x) xs

abbrev pub zero_hash : Bytes
zero_hash = replicate 32 0

abbrev pub received_of : Loop → HashSet
received_of l = l.ingest.received.received_chunks

module _ (lib : Crates) (config : ReceiverConfig) (manifest : TransferManifest) where
  -- whether `fec_rs` is `Some`
  unfoldable pub fec_rs : Result ReceiveError Bool
  fec_rs =
      if ltb 0 manifest.parity_shards && ltb 0 manifest.data_shards
      then (if lib.rs_new manifest.data_shards manifest.parity_shards
          then ok true
          else err ReceiveError.invalid_fec_dimensions)
      else ok false

  -- the `received_chunks` that the loop starts with
  unfoldable pub resumed_chunks : Leftover → HashSet
  resumed_chunks left = elim left.part [
    | none ↦ []
    | some _ ↦ elim left.state [
      | none ↦ []
      | some chunks ↦ if config.resume_partial then extend [] chunks else []
    ]
  ]

  -- one entry of `hash_existing_chunks`
  unfoldable pub existing_chunk_hash : Bytes → ℕ → Bytes
  existing_chunk_hash part i =
      let off = i * manifest.chunk_size in
      let end = min (min (off + manifest.chunk_size) (length part)) manifest.total_size in
      if leb end off then zero_hash else lib.hash (take (end - off) (drop off part))

  unfoldable pub hash_existing_chunks : Bytes → List Bytes
  hash_existing_chunks part = map (existing_chunk_hash part) (range manifest.num_chunks)

  unfoldable pub chunk_hashes : Leftover → List Bytes
  chunk_hashes left = elim left.part [
    | none ↦ []
    | some part ↦ if config.resume_partial then hash_existing_chunks part else []
  ]

  unfoldable pub manifest_ack : Leftover → ManifestAck
  manifest_ack left = record {
    accepted = true;
    message = none;
    received_chunks = resumed_chunks left;
    chunk_hashes = chunk_hashes left;
  }

  -- the `.part` file as it is opened: emptied unless the transfer is resumed, then of full length
  unfoldable pub open_part : Leftover → Bytes
  open_part left = elim left.part [
    | none ↦ resize manifest.total_size []
    | some part ↦
        if config.resume_partial
        then resize manifest.total_size part
        else resize manifest.total_size []
  ]

  unfoldable pub start : Leftover → ℕ → Loop
  start left capacity = record {
    ingest = record {
      received = record {
        out = record { content = open_part left; capacity = capacity };
        received_chunks = resumed_chunks left;
      };
      fec_groups = [];
    };
    accepted_streams = 0;
    inflight = 0;
    state = left.state;
  }

  unfoldable pub max_streams : ℕ
  max_streams =
      let fec_group_count = div_ceil manifest.num_chunks (max manifest.data_shards 1) in
      let expected_parity_streams = saturating_mul fec_group_count manifest.parity_shards in
      saturating_add (saturating_add manifest.num_chunks expected_parity_streams) 256

  unfoldable pub max_parallel : ℕ
  max_parallel = max config.max_parallel_chunks 1

  -- whether the state file is written at this number of chunks
  unfoldable pub saves_at : ℕ → Bool
  saves_at n = n == manifest.num_chunks || leb n 32 || n % 32 == 0

  module _ (has_rs : Bool) (simulate_lost : HashSet) where
    -- the body of the loop for a frame
    unfoldable pub on_wire : Bytes → Loop → Result ReceiveError Loop
    on_wire wire l = do
      (ingest, _) ←
          ingest_wire_frame lib manifest has_rs config.verify_checksums simulate_lost wire l.ingest
      let chunks = ingest.received.received_chunks
      ok (record l {
        ingest = ingest;
        state = if config.resume_partial && saves_at (length chunks) then some chunks else l.state;
      })

    -- An event whose branch of the `select!` is disabled leaves the loop as it is.
    unfoldable pub on_event : Event → Loop → Result ReceiveError Loop
    on_event (joined wire) l =
        if l.inflight == 0 then ok l else on_wire wire (record l { inflight = l.inflight - 1 })
    on_event join_failed l = if l.inflight == 0 then ok l else err ReceiveError.connection_failed
    on_event (datagram wire) l = on_wire wire l
    on_event datagram_failed l = err ReceiveError.connection_failed
    on_event accepted l =
        if ltb l.inflight max_parallel && ltb l.accepted_streams max_streams
        then ok (record l { accepted_streams = l.accepted_streams + 1; inflight = l.inflight + 1 })
        else ok l
    on_event accept_failed l =
        if ltb l.inflight max_parallel && ltb l.accepted_streams max_streams
        then err ReceiveError.connection_failed
        else ok l

    -- the test at the top of the loop's body
    unfoldable pub check_streams : Loop → Result ReceiveError (Unit {0})
    check_streams l = reject_if (leb max_streams l.accepted_streams && l.inflight == 0) (
        ReceiveError.incomplete_transfer (length (received_of l)) manifest.num_chunks
          l.accepted_streams)

    unfoldable pub receive_loop : List Event → Loop → Result ReceiveError Outcome
    receive_loop [] l =
        if ltb (length (received_of l)) manifest.num_chunks
        then check_streams l >> ok (waiting l)
        else ok (complete l)
    receive_loop (event ∷ events) l =
        let next = check_streams l >> (on_event event l >>= receive_loop events) in
        if ltb (length (received_of l)) manifest.num_chunks then next else ok (complete l)

  -- The end of `accept_transfer`: the acknowledgement that is sent, and the bytes of the file that is
  -- put in place if the transfer succeeded.
  unfoldable pub finish_transfer : TransferComplete → Loop → FinalAck × Result ReceiveError Bytes
  finish_transfer message l =
      let content = l.ingest.received.out.content in
      if not (same message.transfer_id manifest.transfer_id)
      then (
        record { success = false; message = some "transfer_id mismatch" },
        err ReceiveError.transfer_id_mismatch,
      )
      else if config.verify_checksums && not (same (lib.hash content) manifest.file_checksum)
      then (
        record { success = false; message = some "file checksum mismatch" },
        err ReceiveError.file_checksum_mismatch,
      )
      else (record { success = true; message = none }, ok content)
