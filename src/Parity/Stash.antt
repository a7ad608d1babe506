-- ===== src/Parity/Stash.antt =====
-- The packets that wait for the others of their group are a map from the group and the sequence number
-- to the last packet that came with them.
use sc_transport.Base.{
  ℕ, ◌≡◌, refl, arith, ◌&&◌, ◌||◌, Option, none, some, List, [], ◌∷◌, ◌==◌, ==_iff, if◌then◌else◌,
  Bool-cases, inl, inr,
}
use sc_transport.Base.HashMap
use sc_transport.Base.HashMap.{HashMap, get-put}
use sc_transport.Base.HashSet.{contains, IsDistinct}
use sc_transport.Packet.{Packet}
use sc_transport.Parity.{or_default, upsert, stash_fec_packet}

-- the first packet with a sequence number
abbrev pub waiting_in : List Packet → ℕ → Option Packet
waiting_in [] seq = none
waiting_in (p ∷ ps) seq = if p.seq == seq then some p else waiting_in ps seq

abbrev pub seqs : List Packet → List ℕ
seqs [] = []
seqs (p ∷ ps) = p.seq ∷ seqs ps

-- the packets of a group
abbrev pub stashed : HashMap (List Packet) → ℕ → List Packet
stashed pending g = or_default (HashMap.get pending g)

-- the packet that waits in a group under a sequence number
abbrev pub waiting : HashMap (List Packet) → ℕ → ℕ → Option Packet
waiting pending g seq = waiting_in (stashed pending g) seq

waiting_in-upsert :
    (buf : List Packet) (p : Packet) (seq : ℕ)
    → waiting_in (upsert buf p) seq ≡ (if p.seq == seq then some p else waiting_in buf seq)
unfolding upsert
waiting_in-upsert [] p seq = refl
waiting_in-upsert (q ∷ buf) p seq = ground (arith, waiting_in-upsert buf p seq)

contains-upsert :
    (buf : List Packet) (p : Packet) (seq : ℕ)
    → contains (seqs (upsert buf p)) seq ≡ (p.seq == seq || contains (seqs buf) seq)
unfolding upsert contains
contains-upsert [] p seq = refl
contains-upsert (q ∷ buf) p seq = ground (arith, contains-upsert buf p seq)

upsert-IsDistinct :
    (buf : List Packet) (p : Packet) → IsDistinct (seqs buf) → IsDistinct (seqs (upsert buf p))
unfolding upsert contains
upsert-IsDistinct [] p h = ground arith
upsert-IsDistinct (q ∷ buf) p h =
    ground (arith, upsert-IsDistinct buf p, contains-upsert buf p q.seq)

-- After a packet was stashed, the packet that waits in a group under a sequence number is that
-- packet, if the group and the number are its own, and the one that waited before, if not.
pub stash_fec_packet-waiting :
    (pending : HashMap (List Packet)) (g : ℕ) (p : Packet) (g' seq : ℕ)
    → waiting (stash_fec_packet pending g p) g' seq
      ≡ (if g == g' && p.seq == seq then some p else waiting pending g' seq)
unfolding stash_fec_packet
stash_fec_packet-waiting pending g p g' seq =
    let put = get-put pending g g' (upsert (stashed pending g) p) in
    elim (Bool-cases (g == g')) [
      | inl e ↦ rw (put, e) (rw (← (==_iff g g').0 e) (waiting_in-upsert (stashed pending g) p seq))
      | inr e ↦ rw (put, e) refl
    ]

-- Each sequence number waits once in each group.
abbrev pub AreDistinct : HashMap (List Packet) → Type 0
AreDistinct pending = (g : ℕ) → IsDistinct (seqs (stashed pending g))

-- If every sequence number waits at most once in each group, it is so after a packet was stashed.
pub stash_fec_packet-AreDistinct :
    (pending : HashMap (List Packet)) (g : ℕ) (p : Packet)
    → AreDistinct pending
    → AreDistinct (stash_fec_packet pending g p)
unfolding stash_fec_packet
stash_fec_packet-AreDistinct pending g p h g' =
    let put = get-put pending g g' (upsert (stashed pending g) p) in
    elim (Bool-cases (g == g')) [
      | inl e ↦ rw (put, e) (upsert-IsDistinct (stashed pending g) p (h g))
      | inr e ↦ rw (put, e) (h g')
    ]
