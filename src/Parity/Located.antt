-- ===== src/Parity/Located.antt =====
-- The positions of the packets with some sequence numbers.
use sc_transport.Base.{
  ℕ, suc, ◌≡◌, refl, sym, ap, ◌∙◌, arith, true, false, inl, inr, none, some, List, [], ◌∷◌, length,
  get_elem?, ◌==◌, ==_iff, Bool-cases,
}
use sc_transport.Base.HashSet.{contains, IsDistinct}
use sc_transport.Packet.{Packet}
use sc_transport.Parity.{position, positions}
use sc_transport.Parity.Stash.{seqs}

-- The packet at the position `i` has the sequence number `idx`.
abbrev pub At : List Packet → ℕ → ℕ → Type 0
At ps i idx = (q : Packet) × ((get_elem? ps i ≡ some q) × (q.seq ≡ idx))

abbrev pub Located : List Packet → List ℕ → List ℕ → Type 0
Located ps [] [] = Unit
Located ps [] (i ∷ poss) = ⊥
Located ps (idx ∷ indices) [] = ⊥
Located ps (idx ∷ indices) (i ∷ poss) = At ps i idx × Located ps indices poss

position_lem :
    (ps : List Packet) (idx : ℕ)
    → contains (seqs ps) idx ≡ true
    → (i : ℕ) × ((position ps idx ≡ some i) × At ps i idx)
unfolding position contains
position_lem [] idx h = absurd (ground arith)
position_lem (p ∷ ps) idx h = elim (Bool-cases (p.seq == idx)) [
  | inl here ↦ (0, (rw here refl, (p, (refl, (==_iff p.seq idx).0 here))))
  | inr there ↦
      let (i, (found, at)) = position_lem ps idx (ground arith) in
      (suc i, (rw (there, found) refl, at))
]

position_missing :
    (ps : List Packet) (idx : ℕ) → contains (seqs ps) idx ≡ false → position ps idx ≡ none
unfolding position contains
position_missing [] idx h = refl
position_missing (p ∷ ps) idx h = ground (arith, position_missing ps idx)

pub positions_lem :
    (ps : List Packet) (indices : List ℕ)
    → ((idx : ℕ) → contains indices idx ≡ true → contains (seqs ps) idx ≡ true)
    → (poss : List ℕ) × ((positions ps indices ≡ some poss) × Located ps indices poss)
unfolding positions contains
positions_lem ps [] h = ([], (refl, tt))
positions_lem ps (idx ∷ indices) h =
    let (i, (found, at)) = position_lem ps idx (h idx (ground arith)) in
    let (poss, (all, located)) = positions_lem ps indices (λ j e. h j (ground arith)) in
    (i ∷ poss, (ground (arith, found, all), (at, located)))

pub positions_missing :
    (ps : List Packet) (indices : List ℕ) (idx : ℕ)
    → contains indices idx ≡ true
    → contains (seqs ps) idx ≡ false
    → positions ps indices ≡ none
unfolding positions contains
positions_missing ps [] idx here missing = absurd (ground arith)
positions_missing ps (j ∷ indices) idx here missing = elim (Bool-cases (j == idx)) [
  | inl same ↦
      let e : j ≡ idx = (==_iff j idx).0 same in
      rw e (ground (arith, position_missing ps idx missing))
  | inr other ↦ ground (arith, positions_missing ps indices idx)
]

pub length-Located :
    (ps : List Packet) (indices poss : List ℕ)
    → Located ps indices poss
    → length poss ≡ length indices
length-Located ps [] [] h = refl
length-Located ps [] (i ∷ poss) h = absurd h
length-Located ps (idx ∷ indices) [] h = absurd h
length-Located ps (idx ∷ indices) (i ∷ poss) h = ap suc (length-Located ps indices poss h.1)

-- A position leads to a packet of one of the sequence numbers, and each of these has a position.
pub contains-Located :
    (ps : List Packet) (indices poss : List ℕ)
    → Located ps indices poss
    → (i : ℕ) → contains poss i ≡ true
    → (q : Packet) × ((get_elem? ps i ≡ some q) × (contains indices q.seq ≡ true))
unfolding contains
contains-Located ps [] [] h i e = absurd (ground arith)
contains-Located ps [] (j ∷ poss) h i e = absurd h
contains-Located ps (idx ∷ indices) [] h i e = absurd h
contains-Located ps (idx ∷ indices) (j ∷ poss) h i e = elim (Bool-cases (j == i)) [
  | inl same ↦
      let (q, (at, seq)) = h.0 in
      (q, (ap (get_elem? ps) (sym ((==_iff j i).0 same)) ∙ at, ground arith))
  | inr other ↦
      let (q, (at, seq)) = contains-Located ps indices poss h.1 i (ground arith) in
      (q, (at, ground arith))
]

pub Located-At :
    (ps : List Packet) (indices poss : List ℕ)
    → Located ps indices poss
    → (idx : ℕ) → contains indices idx ≡ true
    → (i : ℕ) × ((contains poss i ≡ true) × At ps i idx)
unfolding contains
Located-At ps [] [] h idx e = absurd (ground arith)
Located-At ps [] (j ∷ poss) h idx e = absurd h
Located-At ps (j ∷ indices) [] h idx e = absurd h
Located-At ps (j ∷ indices) (i ∷ poss) h idx e = elim (Bool-cases (j == idx)) [
  | inl same ↦ (i, (ground arith, (h.0.0, (h.0.1.0, h.0.1.1 ∙ (==_iff j idx).0 same))))
  | inr other ↦
      let (k, (in_poss, at)) = Located-At ps indices poss h.1 idx (ground arith) in
      (k, (ground arith, at))
]

-- Different sequence numbers have different positions.
pub Located-IsDistinct :
    (ps : List Packet) (indices poss : List ℕ)
    → Located ps indices poss
    → IsDistinct indices
    → IsDistinct poss
Located-IsDistinct ps [] [] h d = tt
Located-IsDistinct ps [] (i ∷ poss) h d = absurd h
Located-IsDistinct ps (idx ∷ indices) [] h d = absurd h
Located-IsDistinct ps (idx ∷ indices) (i ∷ poss) h d = (
  elim (Bool-cases (contains poss i)) [
    | inl again ↦
        let (q, (at, known)) = contains-Located ps indices poss h.1 i again in
        let same : q ≡ h.0.0 = let e : some q ≡ some h.0.0 = sym at ∙ h.0.1.0 in ground arith in
        let seq : q.seq ≡ idx = ap (λ (r : Packet). r.seq) same ∙ h.0.1.1 in
        absurd (let e : true ≡ false = sym known ∙ (ap (contains indices) seq ∙ d.0) in cc)
    | inr new ↦ new
  ],
  Located-IsDistinct ps indices poss h.1 d.1,
)
