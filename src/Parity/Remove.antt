-- ===== src/Parity/Remove.antt =====
-- The packets at some positions, and their removal from the last to the first.
use sc_transport.Base.{
  ℕ, zero, suc, ◌+◌, ◌<◌, ◌≡◌, refl, sym, ap, ◌∙◌, arith, Bool, true, false, ◌||◌, inl, inr, some,
  List, [], ◌∷◌, length, get_elem?, ◌==◌, ==_iff, if◌then◌else◌, Bool-cases,
}
use sc_transport.Base.Count.{count}
use sc_transport.Base.HashSet.{contains, IsDistinct}
use sc_transport.Packet.{Packet}
use sc_transport.Parity.{remove_at, remove_all, insert_descending, sort_descending}
use sc_transport.Parity.Stash.{seqs}

-- `block` is what stands at the positions.
abbrev pub Picks : List Packet → List ℕ → List Packet → Type 0
Picks ps [] [] = Unit
Picks ps [] (q ∷ block) = ⊥
Picks ps (i ∷ poss) [] = ⊥
Picks ps (i ∷ poss) (q ∷ block) = (get_elem? ps i ≡ some q) × Picks ps poss block

abbrev pub AreBelow : ℕ → List ℕ → Type 0
AreBelow i [] = Unit
AreBelow i (j ∷ poss) = (j < i) × AreBelow i poss

abbrev pub Descends : List ℕ → Type 0
Descends [] = Unit
Descends (i ∷ poss) = AreBelow i poss × Descends poss

-- What is left when `q` is removed from a position: the packets before it stay where they are.
abbrev Removes : List Packet → ℕ → Packet → List Packet → Type 0
Removes ps pos q rest =
    (remove_at ps pos ≡ some (q, rest))
    × ((f : Packet → Bool) → count f ps ≡ (if f q then 1 else 0) + count f rest)
    × ((j : ℕ) → j < pos → get_elem? rest j ≡ get_elem? ps j)

kept_before :
    (p : Packet) (ps rest : List Packet) (pos : ℕ)
    → ((j : ℕ) → j < pos → get_elem? rest j ≡ get_elem? ps j)
    → (j : ℕ) → j < suc pos
    → get_elem? (p ∷ rest) j ≡ get_elem? (p ∷ ps) j
kept_before p ps rest pos h zero lt = refl
kept_before p ps rest pos h (suc j) lt = h j (omega arith)

remove_at_lem :
    (ps : List Packet) (pos : ℕ) (q : Packet)
    → get_elem? ps pos ≡ some q
    → (rest : List Packet) × Removes ps pos q rest
unfolding remove_at
remove_at_lem [] pos q h = absurd (ground arith)
remove_at_lem (p ∷ ps) zero q h =
    let same : p ≡ q = ground arith in
    (ps, (ground arith, λ f. rw same refl, λ j lt. absurd (omega arith)))
remove_at_lem (p ∷ ps) (suc pos) q h =
    let (rest, (removed, counts, kept)) = remove_at_lem ps pos q h in
    (p ∷ rest, (rw removed refl, λ f. omega (arith, counts f), kept_before p ps rest pos kept))

Picks-kept :
    (ps rest : List Packet) (i : ℕ) (poss : List ℕ) (block : List Packet)
    → ((j : ℕ) → j < i → get_elem? rest j ≡ get_elem? ps j)
    → AreBelow i poss
    → Picks ps poss block
    → Picks rest poss block
Picks-kept ps rest i [] [] h b p = tt
Picks-kept ps rest i [] (q ∷ block) h b p = p
Picks-kept ps rest i (j ∷ poss) [] h b p = p
Picks-kept ps rest i (j ∷ poss) (q ∷ block) h b p =
    (h j b.0 ∙ p.0, Picks-kept ps rest i poss block h b.1 p.1)

-- Removal from the last position to the first takes what stood at the positions, and leaves the rest.
pub remove_all_lem :
    (ps : List Packet) (poss : List ℕ) (block : List Packet)
    → Descends poss
    → Picks ps poss block
    → (left : List Packet) × (remove_all ps poss ≡ some (block, left))
      × ((f : Packet → Bool) → count f ps ≡ count f block + count f left)
unfolding remove_all
remove_all_lem ps [] [] d p = (ps, refl, λ f. omega arith)
remove_all_lem ps [] (q ∷ block) d p = absurd p
remove_all_lem ps (i ∷ poss) [] d p = absurd p
remove_all_lem ps (i ∷ poss) (q ∷ block) d p =
    let (rest, (removed, counts, kept)) = remove_at_lem ps i q p.0 in
    let (left, removed_all, counts_all) =
      remove_all_lem rest poss block d.1 (Picks-kept ps rest i poss block kept d.0 p.1) in
    (left, ground (arith, removed, removed_all), λ f. omega (arith, counts f, counts_all f))

contains-insert_descending :
    (a : ℕ) (poss : List ℕ) (i : ℕ)
    → contains (insert_descending a poss) i ≡ (a == i || contains poss i)
unfolding insert_descending contains
contains-insert_descending a [] i = refl
contains-insert_descending a (b ∷ poss) i = ground (arith, contains-insert_descending a poss i)

pub contains-sort_descending :
    (poss : List ℕ) (i : ℕ) → contains (sort_descending poss) i ≡ contains poss i
unfolding sort_descending contains
contains-sort_descending [] i = refl
contains-sort_descending (a ∷ poss) i =
    contains-insert_descending a (sort_descending poss) i
    ∙ rw (contains-sort_descending poss i) refl

length-insert_descending :
    (a : ℕ) (poss : List ℕ) → length (insert_descending a poss) ≡ suc (length poss)
unfolding insert_descending
length-insert_descending a [] = refl
length-insert_descending a (b ∷ poss) = ground (arith, length-insert_descending a poss)

pub length-sort_descending : (poss : List ℕ) → length (sort_descending poss) ≡ length poss
unfolding sort_descending
length-sort_descending [] = refl
length-sort_descending (a ∷ poss) =
    omega (arith, length-insert_descending a (sort_descending poss), length-sort_descending poss)

insert_descending-AreBelow :
    (b a : ℕ) (poss : List ℕ) → a < b → AreBelow b poss → AreBelow b (insert_descending a poss)
unfolding insert_descending
insert_descending-AreBelow b a [] lt h = (lt, tt)
insert_descending-AreBelow b a (c ∷ poss) lt h =
    ground (arith, insert_descending-AreBelow b a poss lt h.1)

AreBelow-trans : (a b : ℕ) (poss : List ℕ) → b < a → AreBelow b poss → AreBelow a poss
AreBelow-trans a b [] lt h = tt
AreBelow-trans a b (c ∷ poss) lt h = (omega arith, AreBelow-trans a b poss lt h.1)

insert_descending-Descends :
    (a : ℕ) (poss : List ℕ)
    → contains poss a ≡ false
    → Descends poss
    → Descends (insert_descending a poss)
unfolding insert_descending contains
insert_descending-Descends a [] new d = (tt, tt)
insert_descending-Descends a (b ∷ poss) new d = ground (
  arith,
  AreBelow-trans a b poss,
  insert_descending-AreBelow b a poss,
  insert_descending-Descends a poss,
)

-- Positions that are all different are in descending order, once they are sorted.
pub sort_descending-Descends : (poss : List ℕ) → IsDistinct poss → Descends (sort_descending poss)
unfolding sort_descending
sort_descending-Descends [] h = tt
sort_descending-Descends (a ∷ poss) h =
    insert_descending-Descends a (sort_descending poss) (contains-sort_descending poss a ∙ h.0)
      (sort_descending-Descends poss h.1)

-- What stands at positions that are all inside the list.
pub picked :
    (ps : List Packet) (poss : List ℕ)
    → ((i : ℕ) → contains poss i ≡ true → (q : Packet) × (get_elem? ps i ≡ some q))
    → (block : List Packet) × Picks ps poss block
unfolding contains
picked ps [] h = ([], tt)
picked ps (i ∷ poss) h =
    let (q, at) = h i (ground arith) in
    let (block, picks) = picked ps poss (λ j e. h j (ground arith)) in (q ∷ block, (at, picks))

pub length-Picks :
    (ps : List Packet) (poss : List ℕ) (block : List Packet)
    → Picks ps poss block
    → length block ≡ length poss
length-Picks ps [] [] p = refl
length-Picks ps [] (q ∷ block) p = absurd p
length-Picks ps (i ∷ poss) [] p = absurd p
length-Picks ps (i ∷ poss) (q ∷ block) p = omega (arith, length-Picks ps poss block p.1)

-- A packet at one of the positions is in the block.
pub contains-Picks :
    (ps : List Packet) (poss : List ℕ) (block : List Packet) (i : ℕ) (q : Packet)
    → Picks ps poss block
    → contains poss i ≡ true
    → get_elem? ps i ≡ some q
    → contains (seqs block) q.seq ≡ true
unfolding contains
contains-Picks ps [] [] i q p e at = absurd (ground arith)
contains-Picks ps [] (r ∷ block) i q p e at = absurd p
contains-Picks ps (j ∷ poss) [] i q p e at = absurd p
contains-Picks ps (j ∷ poss) (r ∷ block) i q p e at = elim (Bool-cases (j == i)) [
  | inl same ↦
      let here : some r ≡ some q = sym p.0 ∙ (ap (get_elem? ps) ((==_iff j i).0 same) ∙ at) in
      ground arith
  | inr other ↦ ground (arith, contains-Picks ps poss block i q p.1)
]
