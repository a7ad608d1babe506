-- ===== src/Sender/Adaptive/Laws.antt =====
-- Which chunks are sent, and which are sent again.
use sc_transport.Base.{
  ℕ, ◌≤◌, ◌≡◌, append-nil, append_assoc, ◌∙◌, ap, refl, arith, true, false, not, ◌||◌, some, List,
  [], ◌∷◌, ◌++◌, take, filter, length, length-append, length-take, Result, ok, err, Bool-cases, inl,
  inr,
}
use sc_transport.Base.Bytes.{Bytes}
use sc_transport.Base.HashSet.{HashSet, contains, contains-insert, insert}
use sc_transport.Crates.{Crates}
use sc_transport.Wire.{TransferManifest}
use sc_transport.Packet.{Packet}
use sc_transport.Sender.{SenderConfig, SendError, build_chunk_payload}
use sc_transport.Sender.Adaptive.{
  make_data_packet, data_packets, resent, nack_retransmit, nack_retransmits, push_nack_retransmits,
}

module _ (lib : Crates) (config : SenderConfig) (file : Bytes) (total_size : ℕ)
    (manifest : TransferManifest) (skip : HashSet) (deadline : ℕ) where
  -- The packets are those of the indices, in their order, each with the frame of its chunk.
  abbrev pub AreOf : List ℕ → List Packet → Type 0
  AreOf [] [] = Unit
  AreOf (idx ∷ indices) (p ∷ packets) =
      (p.seq ≡ idx)
      × (build_chunk_payload lib config file idx total_size manifest ≡ ok p.payload)
      × AreOf indices packets
  AreOf _ _ = ⊥

  data_packets_step :
      (idx : ℕ) (indices : List ℕ) {packets : List Packet}
      → contains skip idx ≡ false
      → data_packets lib config file total_size manifest skip deadline (idx ∷ indices) ≡ ok packets
      → (p : Packet) × (rest : List Packet) × (data_packets lib config file total_size manifest skip
            deadline indices
          ≡ ok rest)
        × (packets ≡ p ∷ rest)
        × (p.seq ≡ idx)
        × (build_chunk_payload lib config file idx total_size manifest ≡ ok p.payload)
  unfolding data_packets make_data_packet
  data_packets_step idx indices fresh h = ground (arith, fresh)

  -- Where the sender can read the chunks, the packets that its loop makes are those of the chunks
  -- that it does not leave out, in their order, each with the frame of its chunk.
  pub data_packets-filter :
      (indices : List ℕ) {packets : List Packet}
      → data_packets lib config file total_size manifest skip deadline indices ≡ ok packets
      → AreOf (filter (λ idx. not (contains skip idx)) indices) packets
  unfolding data_packets
  data_packets-filter [] h = ground arith
  data_packets-filter (idx ∷ indices) h = elim (Bool-cases (contains skip idx)) [
    | inl old ↦ rw old (data_packets-filter indices (rw old at h))
    | inr fresh ↦
        (let (p, rest, later, whole, same, framed) = data_packets_step idx indices fresh h in
          rw (fresh, whole) (same, framed, data_packets-filter indices later))
  ]

  -- None of the packets was left out or sent again before, by an earlier packet or in the set.
  abbrev pub AllFresh : HashSet → List Packet → Type 0
  AllFresh retransmitted [] = Unit
  AllFresh retransmitted (p ∷ packets) =
      (contains skip p.seq ≡ false)
      × (contains retransmitted p.seq ≡ false)
      × AllFresh (insert retransmitted p.seq) packets

  -- the set with the indices of the packets
  abbrev pub noted : HashSet → List Packet → HashSet
  noted retransmitted [] = retransmitted
  noted retransmitted (p ∷ packets) = noted (insert retransmitted p.seq) packets

  abbrev pub Subset : HashSet → HashSet → Type 0
  Subset before after = (i : ℕ) → contains before i ≡ true → contains after i ≡ true

  insert-Subset :
      (before after : HashSet) (a : ℕ)
      → Subset before after
      → Subset (insert before a) (insert after a)
  insert-Subset before after a keeps i h =
      ground (arith, contains-insert before a i, contains-insert after a i, keeps i, h)

  noted-Subset :
      (before after : HashSet) (packets : List Packet)
      → Subset before after
      → Subset (noted before packets) (noted after packets)
  noted-Subset before after [] keeps = keeps
  noted-Subset before after (p ∷ packets) keeps =
      noted-Subset (insert before p.seq) (insert after p.seq) packets
        (insert-Subset before after p.seq keeps)

  noted-append : (s : HashSet) (xs ys : List Packet) → noted s (xs ++ ys) ≡ noted (noted s xs) ys
  noted-append s [] ys = refl
  noted-append s (x ∷ xs) ys = noted-append (insert s x.seq) xs ys

  -- What is fresh for a greater set is fresh for a smaller one.
  AllFresh-weaken :
      (before after : HashSet) (packets : List Packet)
      → Subset before after
      → AllFresh after packets
      → AllFresh before packets
  AllFresh-weaken before after [] keeps h = tt
  AllFresh-weaken before after (p ∷ packets) keeps (left, new, h) = (
    left,
    ground (arith, keeps p.seq, new),
    AllFresh-weaken (insert before p.seq) (insert after p.seq) packets
        (insert-Subset before after p.seq keeps) h,
  )

  AllFresh-append :
      (retransmitted : HashSet) (xs ys : List Packet)
      → AllFresh retransmitted xs
      → AllFresh (noted retransmitted xs) ys
      → AllFresh retransmitted (xs ++ ys)
  AllFresh-append retransmitted [] ys h k = k
  AllFresh-append retransmitted (x ∷ xs) ys (left, new, h) k =
      (left, new, AllFresh-append (insert retransmitted x.seq) xs ys h k)

  -- A packet that is sent again is the one of its index.
  resent-AllFresh :
      (idx : ℕ) (read : Result SendError Bytes) (retransmitted : HashSet)
      → contains skip idx ≡ false
      → contains retransmitted idx ≡ false
      → let added = resent lib config file total_size manifest skip deadline idx read in
        (length added ≤ 1)
        × AllFresh retransmitted added
        × Subset (noted retransmitted added) (insert retransmitted idx)
  unfolding resent make_data_packet
  resent-AllFresh idx (err e) retransmitted left new =
      (omega arith, tt, λ i h. ground (arith, contains-insert retransmitted idx i, h))
  resent-AllFresh idx (ok payload) retransmitted left new = (omega arith, (left, new, tt), λ i h. h)

  -- `t` is `s` with some fresh packets behind it, and it remembers them.
  record IsRetransmit (most : ℕ) (s t : List Packet × HashSet) : Type 0 where
    added : List Packet
    behind : t.0 ≡ s.0 ++ added
    few : length added ≤ most
    all_fresh : AllFresh s.1 added
    remembers : Subset (noted s.1 added) t.1

  no-IsRetransmit : (most : ℕ) (s : List Packet × HashSet) → IsRetransmit most s s
  no-IsRetransmit most s = record {
    added = [];
    behind = ground (arith, append-nil s.0);
    few = omega arith;
    all_fresh = tt;
    remembers = λ i h. h;
  }

  nack_retransmit-IsRetransmit :
      (idx : ℕ) (s : List Packet × HashSet)
      → IsRetransmit 1 s (nack_retransmit lib config file total_size manifest skip deadline idx s)
  unfolding nack_retransmit
  nack_retransmit-IsRetransmit idx (packets, retransmitted) =
      elim (Bool-cases (contains skip idx || contains retransmitted idx)) [
        | inl known ↦ rw known (no-IsRetransmit 1 (packets, retransmitted))
        | inr new ↦
            (let (few, fresh, remembers) =
                resent-AllFresh idx (build_chunk_payload lib config file idx total_size manifest)
                  retransmitted (ground (arith, new)) (ground (arith, new)) in
              rw new (record {
                added = _;
                behind = refl;
                few = few;
                all_fresh = fresh;
                remembers = remembers;
              }))
      ]

  nack_retransmits-IsRetransmit :
      (missing : List ℕ) (s : List Packet × HashSet)
      → IsRetransmit
          (length missing)
          s
          (nack_retransmits lib config file total_size manifest skip deadline missing s)
  unfolding nack_retransmits
  nack_retransmits-IsRetransmit [] s = no-IsRetransmit 0 s
  nack_retransmits-IsRetransmit (idx ∷ missing) s =
      let s' = nack_retransmit lib config file total_size manifest skip deadline idx s in
      let one = nack_retransmit-IsRetransmit idx s in
      let more = nack_retransmits-IsRetransmit missing s' in
      record {
        added = one.added ++ more.added;
        behind =
            more.behind
            ∙ ap (λ xs. xs ++ more.added) one.behind
            ∙ append_assoc s.0 one.added more.added;
        few = omega (arith, one.few, more.few, length-append one.added more.added);
        all_fresh =
            AllFresh-append s.1 one.added more.added one.all_fresh
              (AllFresh-weaken (noted s.1 one.added) s'.1 more.added one.remembers more.all_fresh);
        remembers = λ i h. more.remembers i (
            noted-Subset (noted s.1 one.added) s'.1 more.added one.remembers i
              (rw (noted-append s.1 one.added more.added) at h));
      }

  -- Whatever indices the receiver says it misses: at most eight packets are put behind the others,
  -- none for a chunk that is left out, none for one that was sent again before, and no two for the
  -- same chunk. The set of those sent again has their indices afterwards, and those that it had.
  pub push_nack_retransmits-AllFresh :
      (missing : List ℕ) (packets : List Packet) (retransmitted : HashSet)
      → let t =
          push_nack_retransmits lib config file total_size manifest skip deadline
            (some missing)
            (packets, retransmitted) in
        (added : List Packet) × (t.0 ≡ packets ++ added)
        × (length added ≤ 8)
        × AllFresh retransmitted added
        × Subset (noted retransmitted added) t.1
  unfolding push_nack_retransmits
  push_nack_retransmits-AllFresh missing packets retransmitted =
      let run = nack_retransmits-IsRetransmit (take 8 missing) (packets, retransmitted) in
      (
        run.added,
        run.behind,
        omega (arith, run.few, length-take {0} 8 missing),
        run.all_fresh,
        run.remembers,
      )
