-- ===== src/Tests/Transfers.antt =====
-- Whole transfers of the sample file.
use sc_transport.Base.{
  ℕ, zero, suc, ◌<◌, ◌++◌, ◌≡◌, refl, arith, true, false, none, some, List, [], ◌∷◌, ok, err,
}
use sc_transport.Base.Bytes.{Bytes, to_be_bytes, resize, same}
use sc_transport.Base.HashSet.{contains, insert}
use sc_transport.Sender.{
  num_chunks, build_chunk_payload, read_chunk_range, frame_chunk, frame_bytes, chunk_descriptor,
}
use sc_transport.Wire.Frame.{encode}
use sc_transport.Compress.{maybe_compress, is_likely_compressed}
use sc_transport.Sender.Skip.{skipped, skip_chunks, skip_chunk, collect}
use sc_transport.Receiver.Transfer.{
  ReceiverConfig, Leftover, Loop, complete, waiting, received_of, receive_loop, start, open_part,
  resumed_chunks, extend, accepted, check_streams, on_event, max_parallel, max_streams,
  manifest_ack, chunk_hashes, hash_existing_chunks, existing_chunk_hash, finish_transfer,
}
use sc_transport.Receiver.{persist_framed_chunk}
use sc_transport.Receiver.Ingest.{ingest_wire_frame}
use sc_transport.Receiver.Assembly.{noted}
use sc_transport.Receiver.Persist.{stored_raw, persist_framed_chunk-frame_chunk}
use sc_transport.Receiver.Bounds.{IsBounded, receive_loop-IsBounded}
use sc_transport.Sender.Skip.Laws.{skipped-contains}
use sc_transport.Receiver.Resume.{fresh_transfer, resumed_transfer_waits}
use sc_transport.Receiver.Deliver.{ingest_wire_frame-build_chunk_payload, Announces}
use sc_transport.Receiver.Completion.{AllFrames, IsSound, covers, datagrams}
use sc_transport.Tests.Samples.{toy, toy-IsFaithful, file, sender_config, receiver_config, manifest}

-- the code of the sender, for the tests that run it
framing : Unit {0}
unfolding num_chunks build_chunk_payload read_chunk_range frame_chunk frame_bytes chunk_descriptor
    encode maybe_compress is_likely_compressed to_be_bytes
framing = tt

-- the code of the receiver, likewise
receiving : Unit {0}
unfolding start open_part resumed_chunks extend resize insert contains max_streams manifest_ack
    chunk_hashes hash_existing_chunks existing_chunk_hash
receiving = tt

-- the code that leaves chunks out, likewise
skipping : Unit {0}
unfolding skipped skip_chunks skip_chunk collect same
skipping = tt

abbrev wire : ℕ → Bytes
unfolding framing
wire i = elim (build_chunk_payload toy sender_config file i 9 manifest) [ ok w ↦ w | err _ ↦ [] ]

sample-Announces : Announces sender_config manifest file
unfolding framing
sample-Announces = record {
  positive = omega arith;
  small = omega arith;
  chunk_size = refl;
  compression = refl;
  chunks = refl;
  total = refl;
}

-- out of order, one of them twice
abbrev frames : List (ℕ × Bytes)
frames = (2, wire 2) ∷ (0, wire 0) ∷ (2, wire 2) ∷ (1, wire 1) ∷ []

frames-AllFrames : AllFrames toy sender_config manifest file frames
unfolding framing
frames-AllFrames =
    ((refl, omega arith), ((refl, omega arith), ((refl, omega arith), ((refl, omega arith), tt))))

frames_cover : (i : ℕ) → i < num_chunks sender_config 9 → covers frames i ≡ true
unfolding framing
frames_cover zero h = refl
frames_cover (suc zero) h = refl
frames_cover (suc (suc zero)) h = refl
frames_cover (suc (suc (suc i))) h = absurd (omega arith)

fresh_transfer_example :
    (l : Loop) × (receive_loop toy receiver_config manifest false []
        (datagrams frames)
        (start toy receiver_config manifest (record { part = none; state = none }) 100)
      ≡ ok (complete l))
    × (finish_transfer toy receiver_config manifest (record { transfer_id = 1 ∷ [] }) l
        ≡ (record { success = true; message = none }, ok file))
fresh_transfer_example =
    fresh_transfer toy toy-IsFaithful sender_config manifest file sample-Announces receiver_config
      100 frames (record { transfer_id = 1 ∷ [] }) (omega arith) frames-AllFrames frames_cover refl
      refl

-- A resumed transfer: all of the file is in the `.part` file, and only the chunk 0 is noted.
abbrev resuming : ReceiverConfig
resuming = record receiver_config { resume_partial = true }

abbrev leftover : Leftover
leftover = record { part = some file; state = some (0 ∷ []) }

abbrev resumed : Loop
resumed = start toy resuming manifest leftover 100

resumed-IsSound : IsSound sender_config file resumed
unfolding framing receiving
resumed-IsSound = record {
  agrees = record {
    sized = refl;
    distinct = (refl, tt);
    inside = λ i c. ground arith;
    bytes = λ i k c from to lt. refl;
  };
  room = omega arith;
}

skips :
    skipped toy sender_config file 9
      (manifest_ack toy resuming manifest leftover)
      (num_chunks sender_config 9)
    ≡ ok (2 ∷ 1 ∷ 0 ∷ [])
unfolding framing receiving skipping
skips = refl

resumed_transfer_waits_example :
    (l : Loop) × (receive_loop toy resuming manifest false [] (datagrams []) resumed
      ≡ ok (waiting l))
    × (contains (received_of l) 1 ≡ false)
unfolding framing receiving same
resumed_transfer_waits_example =
    resumed_transfer_waits toy toy-IsFaithful sender_config manifest file sample-Announces resuming
      (manifest_ack toy resuming manifest leftover) 1 [] resumed skips (omega arith) refl refl refl
      tt (λ i c. cc) resumed-IsSound (omega arith)

-- the state before any frame, as `ingest_wire_frame` sees it
abbrev fresh : Loop
fresh = start toy receiver_config manifest (record { part = none; state = none }) 100

ingest_wire_frame-build_chunk_payload_example :
    ingest_wire_frame toy manifest false true [] (wire 1) fresh.ingest
    ≡ ok (record fresh.ingest { received = noted sender_config file 1 fresh.ingest.received }, 0)
unfolding framing receiving
ingest_wire_frame-build_chunk_payload_example =
    ingest_wire_frame-build_chunk_payload toy toy-IsFaithful sender_config manifest file
      sample-Announces 1 true fresh.ingest refl (omega arith) (omega arith)

persist_framed_chunk-frame_chunk_example :
    persist_framed_chunk toy (wire 0 ++ (0 ∷ 0 ∷ [])) manifest true fresh.ingest.received
    ≡ stored_raw sender_config 0 (0 ∷ 0 ∷ 0 ∷ 0 ∷ []) fresh.ingest.received
unfolding framing
persist_framed_chunk-frame_chunk_example =
    persist_framed_chunk-frame_chunk toy toy-IsFaithful sender_config manifest refl 0
      (0 ∷ 0 ∷ 0 ∷ 0 ∷ []) (0 ∷ 0 ∷ []) true fresh.ingest.received refl (omega arith)

fresh-IsBounded : IsBounded toy receiver_config manifest false [] fresh
unfolding receiving
fresh-IsBounded = ground arith

-- two streams are opened, and one of them has come
abbrev half_way : Loop
half_way = record fresh { accepted_streams = 2; inflight = 2 }

opened :
    receive_loop toy receiver_config manifest false [] (accepted ∷ accepted ∷ []) fresh
    ≡ ok (waiting half_way)
unfolding receiving receive_loop on_event check_streams max_parallel
opened = refl

receive_loop-IsBounded_example : IsBounded toy receiver_config manifest false [] half_way
receive_loop-IsBounded_example =
    receive_loop-IsBounded toy receiver_config manifest false [] (accepted ∷ accepted ∷ []) fresh
      fresh-IsBounded opened

skipped-contains_example : contains (2 ∷ 1 ∷ 0 ∷ []) 1 ≡ true
unfolding framing receiving same
skipped-contains_example =
    skipped-contains toy sender_config (omega arith) file
      (manifest_ack toy resuming manifest leftover) 1 (omega arith) refl refl skips
