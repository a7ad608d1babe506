-- ===== src/Receiver/Resume.antt =====
-- Whole transfers: a fresh one delivers the file, and a resumed one waits for ever for a chunk that
-- the sender leaves out and the receiver has not noted.
use sc_transport.Base.{
  ℕ, ◌-◌, ◌≤◌, ◌<◌, ◌≡◌, arith, true, false, none, some, get_elem?, List, [], length, length-append,
  length-take, length-replicate, replicate, ◌++◌, Bool-cases, inl, inr, ok,
}
use sc_transport.Base.Bytes.{Bytes, resize, same, same_refl}
use sc_transport.Base.HashSet.{HashSet, contains}
use sc_transport.Crates.{Crates, IsFaithful}
use sc_transport.Wire.{TransferManifest, ManifestAck, TransferComplete}
use sc_transport.Sender.{SenderConfig, num_chunks}
use sc_transport.Sender.Skip.{skipped}
use sc_transport.Sender.Skip.Laws.{skipped-contains}
use sc_transport.Receiver.Assembly.{chunk}
use sc_transport.Receiver.Deliver.{Announces}
use sc_transport.Receiver.Completion.{
  AllFrames, IsSound, covers, datagrams, receive_loop-datagrams, receive_loop-waits,
}
use sc_transport.Receiver.Transfer.{
  ReceiverConfig, Loop, zero_hash, complete, waiting, received_of, resumed_chunks, open_part, start,
  max_streams, receive_loop, finish_transfer,
}

length-resize : (n : ℕ) (x : Bytes) → length (resize n x) ≡ n
unfolding resize
length-resize n x = omega (
  arith,
  length-take {0} n (x ++ replicate (n - length x) 0),
  length-append {0} x (replicate (n - length x) 0),
  length-replicate {0} {A = ℕ} (n - length x) 0,
)

module _ (lib : Crates) (faithful : IsFaithful lib) (config : SenderConfig)
    (manifest : TransferManifest) (file : Bytes) (agreed : Announces config manifest file)
    (rx : ReceiverConfig) where
  start-IsSound :
      (capacity : ℕ)
      → length file ≤ capacity
      → IsSound config file (start lib rx manifest (record { part = none; state = none }) capacity)
  unfolding start open_part resumed_chunks contains
  start-IsSound capacity room = record {
    agrees = record {
      sized = omega (arith, length-resize manifest.total_size [], agreed.total);
      distinct = tt;
      inside = λ i c. cc;
      bytes = λ i k c. cc;
    };
    room = room;
  }

  max_streams-pos : 0 < max_streams lib rx manifest
  unfolding max_streams
  max_streams-pos = ground arith

  -- For a file that fits the storage, a sender and a receiver that agree on it, and libraries that
  -- are faithful: a fresh transfer in which the frames of all the file's chunks arrive as
  -- datagrams, in any order and however often, and no error correction is in use, ends the loop.
  -- With the completion message of this transfer and the file's hash in the manifest, the receiver
  -- then acknowledges success and puts the sender's file in place.
  pub fresh_transfer :
      (capacity : ℕ) (frames : List (ℕ × Bytes)) (message : TransferComplete)
      → length file ≤ capacity
      → AllFrames lib config manifest file frames
      → ((i : ℕ) → i < num_chunks config (length file) → covers frames i ≡ true)
      → message.transfer_id ≡ manifest.transfer_id
      → manifest.file_checksum ≡ lib.hash file
      → (l : Loop) × (receive_loop lib rx manifest false []
            (datagrams frames)
            (start lib rx manifest (record { part = none; state = none }) capacity)
          ≡ ok (complete l))
        × (finish_transfer lib rx manifest message l
            ≡ (record { success = true; message = none }, ok file))
  unfolding finish_transfer start
  fresh_transfer capacity frames message room fs all id sum =
      let (l, ran, done) =
        receive_loop-datagrams lib faithful config manifest file agreed rx frames
          (start lib rx manifest (record { part = none; state = none }) capacity) fs
          (start-IsSound capacity room) max_streams-pos (λ i lt. ground (arith, all i lt)) in
      (
        l,
        ran,
        rw (id, done, sum, same_refl manifest.transfer_id, same_refl (lib.hash file))
            (ground arith),
      )

  -- On a resumed transfer, a chunk of the file whose non-zero hash the receiver sent, but which it
  -- has not noted, is left out by the sender. Whichever frames of chunks that are not left out
  -- then arrive as datagrams, and however often, without error correction and with streams to
  -- spare, the receiver's loop goes on waiting, and that chunk is still not noted.
  pub resumed_transfer_waits :
      (ack : ManifestAck) {skip : HashSet} (idx : ℕ) (frames : List (ℕ × Bytes)) (l : Loop)
      → skipped lib config file (length file) ack (num_chunks config (length file)) ≡ ok skip
      → idx < num_chunks config (length file)
      → get_elem? ack.chunk_hashes idx ≡ some (lib.hash (chunk config file idx))
      → same (lib.hash (chunk config file idx)) zero_hash ≡ false
      → contains (received_of l) idx ≡ false
      → AllFrames lib config manifest file frames
      → ((i : ℕ) → covers frames i ≡ true → contains skip i ≡ false)
      → IsSound config file l
      → l.accepted_streams < max_streams lib rx manifest
      → (l' : Loop) × (receive_loop lib rx manifest false [] (datagrams frames) l ≡ ok (waiting l'))
        × (contains (received_of l') idx ≡ false)
  resumed_transfer_waits ack {skip} idx frames l skips inside hashed known lacks fs sent h few =
      let left =
        skipped-contains lib config agreed.positive file ack idx inside hashed known skips in
      receive_loop-waits lib faithful config manifest file agreed rx idx inside frames l fs h few
        lacks
        (elim (Bool-cases (covers frames idx)) [
          | inl there ↦ absurd (ground (arith, sent idx there, left))
          | inr absent ↦ absent
        ])
