-- ===== src/Reorder/Laws.antt =====
-- What leaves the reorder buffer is in order and without gaps, and all that can leave does.
use sc_transport.Base.{
  ℕ, zero, suc, ◌+◌, ◌≤◌, ◌<◌, ◌≡◌, refl, arith, none, some, List, [], ◌∷◌, length, map, range_from,
  ◌==◌, is_some, Bool-cases, Option-cases, inl, inr,
}
use sc_transport.Base.HashMap
use sc_transport.Base.HashMap.{HashMap, get-put, get-remove}
use sc_transport.Packet.{Packet}
use sc_transport.Reorder.{ReorderBuffer, ingest, find_seq, reassemble, reassemble_ready}

-- Each id has one packet.
abbrev pub IsUnique : HashMap Packet → Type 0
IsUnique [] = Unit
IsUnique ((k, p) ∷ received) = (HashMap.get received k ≡ none) × IsUnique received

put-IsUnique : (m : HashMap Packet) (k : ℕ) (p : Packet) → IsUnique m → IsUnique (HashMap.put m k p)
unfolding HashMap.put HashMap.get
put-IsUnique [] k p h = (refl, tt)
put-IsUnique ((j, q) ∷ m) k p (once, rest) = elim (Bool-cases (j == k)) [
  | inl here ↦ rw (here, HashMap.put) (ground (arith, once), rest)
  | inr there ↦
      rw (there, HashMap.put) (ground (arith, get-put m k j p, once), put-IsUnique m k p rest)
]

remove-IsUnique : (m : HashMap Packet) (k : ℕ) → IsUnique m → IsUnique (HashMap.remove m k)
unfolding HashMap.remove
remove-IsUnique [] k h = tt
remove-IsUnique ((j, q) ∷ m) k (once, rest) = elim (Bool-cases (j == k)) [
  | inl here ↦ rw (here, HashMap.remove) (remove-IsUnique m k rest)
  | inr there ↦
      rw (there, HashMap.remove) (ground (arith, get-remove m k j, once), remove-IsUnique m k rest)
]

length-remove-le : (m : HashMap Packet) (k : ℕ) → length (HashMap.remove m k) ≤ length m
unfolding HashMap.remove
length-remove-le [] k = omega arith
length-remove-le ((j, q) ∷ m) k = ground (arith, length-remove-le m k)

length-remove-lt :
    (m : HashMap Packet) (k : ℕ) {p : Packet}
    → HashMap.get m k ≡ some p
    → length (HashMap.remove m k) < length m
unfolding HashMap.remove HashMap.get
length-remove-lt [] k h = cc
length-remove-lt ((j, q) ∷ m) k h = elim (Bool-cases (j == k)) [
  | inl here ↦ rw (here, HashMap.remove) (omega (arith, length-remove-le m k))
  | inr there ↦
      let shorter = length-remove-lt m k (rw (there, HashMap.get) at h) in
      rw (there, HashMap.remove) (omega (arith, shorter))
]

-- What is found is there, and has the sequence number.
find_seq-get :
    (m : HashMap Packet) (seq : ℕ) {id : ℕ}
    → IsUnique m
    → find_seq m seq ≡ some id
    → (p : Packet) × (HashMap.get m id ≡ some p) × (p.seq ≡ seq)
unfolding find_seq HashMap.get
find_seq-get [] seq h found = absurd (ground (arith, found))
find_seq-get ((k, q) ∷ m) seq {id = id} (once, rest) found = elim (Bool-cases (q.seq == seq)) [
  | inl here ↦ (q, ground (arith, here, found), ground (arith, here))
  | inr there ↦
      let (p, at, s) = find_seq-get m seq {id = id} rest (rw (there, find_seq) at found) in
      (p, ground (arith, once, at), s)
]

find_seq-empty : (seq : ℕ) → find_seq [] seq ≡ none
unfolding find_seq
find_seq-empty seq = refl

-- The loop, with rounds enough.
record IsReady (m : HashMap Packet) (seq : ℕ) (out : List Packet) (m' : HashMap Packet) (seq' : ℕ)
    : Type 0 where
  in_order : map (λ (p : Packet). p.seq) out ≡ range_from seq (length out)
  advanced : seq' ≡ seq + length out
  exhausted : find_seq m' seq' ≡ none
  unique : IsUnique m'

reassemble-IsReady :
    (rounds : ℕ) (m : HashMap Packet) (seq : ℕ)
    → length m ≤ rounds
    → IsUnique m
    → IsReady m seq
        (reassemble rounds m seq).0
        (reassemble rounds m seq).1
        (reassemble rounds m seq).2
unfolding reassemble
reassemble-IsReady zero [] seq le h = record {
  in_order = refl;
  advanced = omega arith;
  exhausted = find_seq-empty seq;
  unique = tt;
}
reassemble-IsReady zero ((k, p) ∷ m) seq le h = absurd (omega arith)
reassemble-IsReady (suc rounds) m seq le h = elim (Option-cases (find_seq m seq)) [
  | inl nothing ↦
      rw (nothing, reassemble)
        (record { in_order = refl; advanced = omega arith; exhausted = nothing; unique = h })
  | inr (id, found) ↦
      let (p, there, s) = find_seq-get m seq {id = id} h found in
      let shorter = length-remove-lt m id there in
      let rest =
        reassemble-IsReady rounds (HashMap.remove m id) (seq + 1) (omega (arith, shorter))
          (remove-IsUnique m id h) in
      rw (found, there, reassemble)
        (record {
          in_order = ground (arith, s, rest.in_order);
          advanced = omega (arith, rest.advanced);
          exhausted = rest.exhausted;
          unique = rest.unique;
        })
]

ingest-IsUnique :
    (b : ReorderBuffer) (p : Packet) → IsUnique b.received → IsUnique (ingest b p).received
unfolding ingest
ingest-IsUnique b p h = elim (Bool-cases (is_some (HashMap.get b.seen p.id))) [
  | inl old ↦ rw (old, ingest) h
  | inr new ↦ rw (new, ingest) (put-IsUnique b.received p.id p h)
]

-- the buffer after packets came in
abbrev pub ingest_all : ReorderBuffer → List Packet → ReorderBuffer
ingest_all b [] = b
ingest_all b (p ∷ packets) = ingest_all (ingest b p) packets

ingest_all-IsUnique :
    (b : ReorderBuffer) (packets : List Packet)
    → IsUnique b.received
    → IsUnique (ingest_all b packets).received
ingest_all-IsUnique b [] h = h
ingest_all-IsUnique b (p ∷ packets) h =
    ingest_all-IsUnique (ingest b p) packets (ingest-IsUnique b p h)

-- After any packets have come into a buffer whose packets have an id each (as an empty one's
-- have), the packets that `reassemble_ready` hands out have consecutive sequence numbers from
-- `next_seq` on, `next_seq` moves on by their number, and no packet with the new `next_seq` is
-- left.
pub reassemble_ready-in_order :
    (b : ReorderBuffer) (packets : List Packet)
    → IsUnique b.received
    → (map (λ (p : Packet). p.seq) (reassemble_ready (ingest_all b packets)).0
        ≡ range_from
            (ingest_all b packets).next_seq
            (length (reassemble_ready (ingest_all b packets)).0))
      × ((reassemble_ready (ingest_all b packets)).1.next_seq
          ≡ (ingest_all b packets).next_seq + length (reassemble_ready (ingest_all b packets)).0)
      × (find_seq
            (reassemble_ready (ingest_all b packets)).1.received
            (reassemble_ready (ingest_all b packets)).1.next_seq
          ≡ none)
unfolding reassemble_ready
reassemble_ready-in_order b packets h =
    let c = ingest_all b packets in
    let r =
      reassemble-IsReady (length c.received) c.received c.next_seq (omega arith)
        (ingest_all-IsUnique b packets h) in
    (r.in_order, r.advanced, r.exhausted)
