-- ===== src/Receiver/Assembly.antt =====
-- The file that the receiver assembles from chunks agrees with the sender's file on every chunk that
-- is noted as received, and is that file when all chunks are.
use mathlib.Core.Path.{subst}
use native.Mathlib.Nat.{div-add-mod}
use sc_transport.Base.{
  ℕ, ◌+◌, ◌-◌, ◌*◌, ◌/◌, ◌≤◌, ◌<◌, min, ◌≡◌, ap, ◌∙◌, refl, arith, true, ◌&&◌, ◌||◌, length, take,
  drop, get_elem?, get_elem?-take-drop, length-take, length-drop, leb, ltb, ◌==◌, if◌then◌else◌,
  Bool-cases, inl, inr, ==_iff,
}
use sc_transport.Base.Bytes.{Bytes}
use sc_transport.Base.Bytes.Write.{write_at, length-write_at, get_elem?-write_at, list_ext}
use sc_transport.Base.HashSet.{
  HashSet, contains, insert, IsDistinct, contains-insert, insert-IsDistinct,
}
use sc_transport.Base.HashSet.Count.{contains_of_length}
use sc_transport.Sender.{SenderConfig, num_chunks}
use sc_transport.Sender.Geometry.{num_chunks_iff}
use sc_transport.Receiver.{Received}

-- the chunk `idx` of a file
abbrev pub chunk : SenderConfig → Bytes → ℕ → Bytes
chunk config file idx = take config.chunk_size (drop (idx * config.chunk_size) file)

-- what the state is after the chunk `idx`
abbrev pub noted : SenderConfig → Bytes → ℕ → Received → Received
noted config file idx s = if contains s.received_chunks idx then s else record {
  out = record s.out {
    content = write_at s.out.content (idx * config.chunk_size) (chunk config file idx);
  };
  received_chunks = insert s.received_chunks idx;
}

pub record Agrees (config : SenderConfig) (file : Bytes) (s : Received) : Type 0 where
  pub sized : length s.out.content ≡ length file
  pub distinct : IsDistinct s.received_chunks
  pub inside : (i : ℕ) → contains s.received_chunks i ≡ true → i < num_chunks config (length file)
  pub bytes :
      (i k : ℕ)
      → contains s.received_chunks i ≡ true
      → i * config.chunk_size ≤ k
      → k < i * config.chunk_size + config.chunk_size
      → k < length file
      → get_elem? s.out.content k ≡ get_elem? file k

module _ (config : SenderConfig) (pos : 0 < config.chunk_size) (file : Bytes) where
  length-chunk :
      (idx : ℕ)
      → length (chunk config file idx)
        ≡ min config.chunk_size (length file - idx * config.chunk_size)
  length-chunk idx = omega (
    arith,
    length-take {0} config.chunk_size (drop (idx * config.chunk_size) file),
    length-drop {0} (idx * config.chunk_size) file,
  )

  module _ (idx : ℕ) (inside : idx < num_chunks config (length file)) (content : Bytes)
      (sized : length content ≡ length file) where
    written : Bytes
    written = write_at content (idx * config.chunk_size) (chunk config file idx)

    length-written : length written ≡ length file
    unfolding written
    length-written =
        let starts = (num_chunks_iff config (length file) idx pos).0 inside in
        length-write_at content (idx * config.chunk_size) (chunk config file idx)
          (omega (arith, length-chunk idx))
        ∙ sized

    -- A byte that the write reaches is the file's, and another one was there before.
    get_elem?-written :
        (k : ℕ)
        → get_elem? written k ≡ (
            if leb (idx * config.chunk_size) k
              && ltb k (idx * config.chunk_size + length (chunk config file idx))
            then get_elem? file k
            else get_elem? content k)
    unfolding written
    get_elem?-written k =
        let off = idx * config.chunk_size in
        let raw = chunk config file idx in
        let starts = (num_chunks_iff config (length file) idx pos).0 inside in
        let room : off ≤ length content = omega arith in
        elim (Bool-cases (leb off k && ltb k (off + length raw))) [
          | inl here ↦
              let back : off + (k - off) ≡ k = ground (arith, here) in
              let below : k - off < config.chunk_size = ground (arith, here, length-chunk idx) in
              rw (
                get_elem?-write_at content off raw k room,
                here,
                get_elem?-take-drop off config.chunk_size file (k - off) below,
                back,
              )
          | inr there ↦ rw (get_elem?-write_at content off raw k room, there) refl
        ]

    written_in :
        (k : ℕ)
        → idx * config.chunk_size ≤ k
        → k < idx * config.chunk_size + config.chunk_size
        → k < length file
        → get_elem? written k ≡ get_elem? file k
    written_in k from to lt = ground (arith, get_elem?-written k, length-chunk idx)

    written_out :
        (k : ℕ) → get_elem? content k ≡ get_elem? file k → get_elem? written k ≡ get_elem? file k
    written_out k same = ground (arith, get_elem?-written k)

  contains_again :
      (idx i : ℕ) (s : HashSet) → contains s idx ≡ true → contains s i ≡ (idx == i || contains s i)
  contains_again idx i s old = elim (Bool-cases (idx == i)) [
    | inl same ↦
        let e : idx ≡ i = (==_iff idx i).0 same in rw same (subst (λ k. contains s k ≡ true) e old)
    | inr other ↦ rw other refl
  ]

  -- To note the chunk that was written keeps the agreement.
  Agrees-written :
      (idx : ℕ)
      → idx < num_chunks config (length file)
      → (s : Received) → Agrees config file s
      → Agrees config file (record {
        out = record s.out {
          content = write_at s.out.content (idx * config.chunk_size) (chunk config file idx);
        };
        received_chunks = insert s.received_chunks idx;
      })
  unfolding written
  Agrees-written idx inside s h = record {
    sized = length-written idx inside s.out.content h.sized;
    distinct = insert-IsDistinct s.received_chunks idx h.distinct;
    inside = λ i c. ground (arith, contains-insert s.received_chunks idx i, h.inside i);
    bytes = λ i k c from to lt. elim (Bool-cases (idx == i)) [
      | inl new ↦
          let e : idx * config.chunk_size ≡ i * config.chunk_size =
            ap (λ n. n * config.chunk_size) ((==_iff idx i).0 new) in
          written_in idx inside s.out.content h.sized k (omega arith) (omega arith) lt
      | inr old ↦
          let there : contains s.received_chunks i ≡ true =
            ground (arith, c, old, contains-insert s.received_chunks idx i) in
          written_out idx inside s.out.content h.sized k (h.bytes i k there from to lt)
    ];
  }

  -- Storing a chunk of the file, new or not, keeps the agreement.
  pub Agrees-noted :
      (idx : ℕ)
      → idx < num_chunks config (length file)
      → (s : Received) → Agrees config file s
      → Agrees config file (noted config file idx s)
  Agrees-noted idx inside s h = elim (Bool-cases (contains s.received_chunks idx)) [
    | inl old ↦ rw old h
    | inr new ↦ rw new (Agrees-written idx inside s h)
  ]

  pub contains-noted :
      (idx i : ℕ) (s : Received)
      → contains (noted config file idx s).received_chunks i
        ≡ (idx == i || contains s.received_chunks i)
  contains-noted idx i s = elim (Bool-cases (contains s.received_chunks idx)) [
    | inl old ↦ rw old (contains_again idx i s.received_chunks old)
    | inr new ↦ rw new (contains-insert s.received_chunks idx i)
  ]

  -- A file that agrees on every chunk is the file.
  pub content-eq-file :
      (s : Received)
      → Agrees config file s
      → ((i : ℕ) → i < num_chunks config (length file) → contains s.received_chunks i ≡ true)
      → s.out.content ≡ file
  content-eq-file s h all = list_ext s.out.content file h.sized λ k lt.
      let i = k / config.chunk_size in
      let from : i * config.chunk_size ≤ k = grind (arith, div-add-mod) in
      let to : k < i * config.chunk_size + config.chunk_size = grind (arith, div-add-mod) in
      h.bytes i k (all i ((num_chunks_iff config (length file) i pos).1 (omega arith))) from to lt

  -- When as many chunks are noted as the file has, the file is complete.
  pub content-eq-file_of_count :
      (s : Received)
      → Agrees config file s
      → num_chunks config (length file) ≤ length s.received_chunks
      → s.out.content ≡ file
  content-eq-file_of_count s h full = content-eq-file s h λ i lt.
      contains_of_length (num_chunks config (length file)) s.received_chunks i h.distinct h.inside
        full lt
