-- ===== src/Receiver/Completion.antt =====
-- The loop of `accept_transfer`, without error correction: it ends when every chunk has come, and
-- then the file is the sender's.
use sc_transport.Base.{
  ℕ, ◌≤◌, ◌<◌, ◌≡◌, refl, arith, Bool, true, false, ◌&&◌, ◌||◌, some, List, [], ◌∷◌, map, length,
  ltb, le→ltb, ◌==◌, if◌then◌else◌, Bool-cases, inl, inr, ok,
}
use sc_transport.Base.Bytes.{Bytes}
use sc_transport.Base.HashSet.{contains}
use sc_transport.Base.HashSet.Count.{contains_of_length, length-ge_of_contains}
use sc_transport.Crates.{Crates, IsFaithful}
use sc_transport.Wire.{TransferManifest}
use sc_transport.Sender.{SenderConfig, num_chunks, build_chunk_payload}
use sc_transport.Receiver.Assembly.{
  Agrees, content-eq-file_of_count, Agrees-noted, contains-noted, noted,
}
use sc_transport.Receiver.Deliver.{Announces, ingest_wire_frame-build_chunk_payload}
use sc_transport.Receiver.Transfer.{
  ReceiverConfig, Event, datagram, Loop, complete, waiting, received_of, max_streams, saves_at,
  on_wire, on_event, check_streams, receive_loop,
}

module _ (lib : Crates) (config : SenderConfig) (manifest : TransferManifest) (file : Bytes) where
  -- `wire` is the frame that the sender builds for the chunk `idx`.
  abbrev pub IsFrame : ℕ × Bytes → Type 0
  IsFrame f =
      (build_chunk_payload lib config file f.0 (length file) manifest ≡ ok f.1)
      × (f.0 < num_chunks config (length file))

  abbrev pub AllFrames : List (ℕ × Bytes) → Type 0
  AllFrames [] = Unit
  AllFrames (f ∷ fs) = IsFrame f × AllFrames fs

-- What holds of the loop: the file agrees, and there is room for it.
pub record IsSound (config : SenderConfig) (file : Bytes) (l : Loop) : Type 0 where
  pub agrees : Agrees config file l.ingest.received
  pub room : length file ≤ l.ingest.received.out.capacity

-- Some frame of the list is that of the chunk `i`.
abbrev pub covers : List (ℕ × Bytes) → ℕ → Bool
covers [] i = false
covers (f ∷ fs) i = f.0 == i || covers fs i

abbrev pub datagrams : List (ℕ × Bytes) → List Event
datagrams = map (λ f. datagram f.1)

module _ (lib : Crates) (faithful : IsFaithful lib) (config : SenderConfig)
    (manifest : TransferManifest) (file : Bytes) (agreed : Announces config manifest file)
    (rx : ReceiverConfig) where
  -- the loop after the frame of the chunk `idx`
  after : ℕ → Loop → Loop
  after idx l =
      let received = noted config file idx l.ingest.received in
      record l {
        ingest = record l.ingest { received = received };
        state =
            if rx.resume_partial && saves_at lib rx manifest (length received.received_chunks)
            then some received.received_chunks
            else l.state;
      }

  on_wire-after :
      (idx : ℕ) (wire : Bytes) (l : Loop)
      → IsFrame lib config manifest file (idx, wire)
      → IsSound config file l
      → on_wire lib rx manifest false [] wire l ≡ ok (after idx l)
  unfolding on_wire after
  on_wire-after idx wire l f h =
      rw
        (ingest_wire_frame-build_chunk_payload lib faithful config manifest file agreed idx
          rx.verify_checksums l.ingest f.0 f.1 h.room)
        refl

  after-IsSound :
      (idx : ℕ) (l : Loop)
      → idx < num_chunks config (length file)
      → IsSound config file l
      → IsSound config file (after idx l)
  unfolding after
  after-IsSound idx l inside h = record {
    agrees = Agrees-noted config agreed.positive file idx inside l.ingest.received h.agrees;
    room = ground (arith, h.room);
  }

  contains-after :
      (idx i : ℕ) (l : Loop)
      → contains (received_of (after idx l)) i ≡ (idx == i || contains (received_of l) i)
  unfolding after
  contains-after idx i l = contains-noted config agreed.positive file idx i l.ingest.received

  accepted_streams-after :
      (idx : ℕ) (l : Loop) → (after idx l).accepted_streams ≡ l.accepted_streams
  unfolding after
  accepted_streams-after idx l = refl

  passes :
      (l : Loop)
      → l.accepted_streams < max_streams lib rx manifest
      → check_streams lib rx manifest false [] l ≡ ok tt
  unfolding check_streams
  passes l h = ground arith

  stops :
      (l : Loop)
      → IsSound config file l
      → ltb (length (received_of l)) manifest.num_chunks ≡ false
      → l.ingest.received.out.content ≡ file
  stops l h full =
      content-eq-file_of_count config agreed.positive file l.ingest.received h.agrees
        (ground (arith, agreed.chunks, full))

  -- Whatever the order of the frames, and however often each comes, once all chunks are covered the
  -- loop ends with the file complete.
  pub receive_loop-datagrams :
      (frames : List (ℕ × Bytes)) (l : Loop)
      → AllFrames lib config manifest file frames
      → IsSound config file l
      → l.accepted_streams < max_streams lib rx manifest
      → ((i : ℕ)
          → i < num_chunks config (length file)
          → (contains (received_of l) i || covers frames i) ≡ true)
      → (l' : Loop) × (receive_loop lib rx manifest false [] (datagrams frames) l
          ≡ ok (complete l'))
        × (l'.ingest.received.out.content ≡ file)
  unfolding receive_loop on_event
  receive_loop-datagrams [] l fs h few all =
      let enough =
        length-ge_of_contains (num_chunks config (length file)) (received_of l)
          (λ i lt. ground (arith, all i lt)) in
      let full : ltb (length (received_of l)) manifest.num_chunks ≡ false =
        le→ltb _ _ (omega (arith, agreed.chunks)) in
      (l, rw full refl, stops l h full)
  receive_loop-datagrams ((idx, wire) ∷ frames) l fs h few all =
      elim (Bool-cases (ltb (length (received_of l)) manifest.num_chunks)) [
        | inr full ↦ (l, rw full refl, stops l h full)
        | inl more ↦
            let (l', ran, same) =
              receive_loop-datagrams frames (after idx l) fs.1 (after-IsSound idx l fs.0.1 h)
                (rw accepted_streams-after few)
                (λ i lt. ground (arith, all i lt, contains-after idx i l)) in
            (l', rw (more, passes l few, on_wire-after idx wire l fs.0 h) ran, same)
      ]

  starved :
      (idx : ℕ) (l : Loop)
      → idx < num_chunks config (length file)
      → IsSound config file l
      → contains (received_of l) idx ≡ false
      → ltb (length (received_of l)) manifest.num_chunks ≡ true
  starved idx l inside h lacks =
      elim (Bool-cases (ltb (length (received_of l)) manifest.num_chunks)) [
        | inl more ↦ more
        | inr full ↦ absurd (
            ground (
              arith,
              lacks,
              contains_of_length (num_chunks config (length file)) (received_of l) idx
                  h.agrees.distinct h.agrees.inside (ground (arith, agreed.chunks, full)) inside,
            ))
      ]

  -- While no frame of the chunk `idx` comes, the loop does not end.
  pub receive_loop-waits :
      (idx : ℕ)
      → idx < num_chunks config (length file)
      → (frames : List (ℕ × Bytes)) (l : Loop) → AllFrames lib config manifest file frames
      → IsSound config file l
      → l.accepted_streams < max_streams lib rx manifest
      → contains (received_of l) idx ≡ false
      → covers frames idx ≡ false
      → (l' : Loop) × (receive_loop lib rx manifest false [] (datagrams frames) l ≡ ok (waiting l'))
        × (contains (received_of l') idx ≡ false)
  unfolding receive_loop on_event
  receive_loop-waits idx inside [] l fs h few lacks uncovered =
      (l, rw (starved idx l inside h lacks, passes l few) refl, lacks)
  receive_loop-waits idx inside ((i, wire) ∷ frames) l fs h few lacks uncovered =
      let (l', ran, still) =
        receive_loop-waits idx inside frames (after i l) fs.1 (after-IsSound i l fs.0.1 h)
          (rw accepted_streams-after few) (ground (arith, contains-after i idx l, lacks, uncovered))
          (ground (arith, uncovered)) in
      (
        l',
        rw (starved idx l inside h lacks, passes l few, on_wire-after i wire l fs.0 h) ran,
        still,
      )
