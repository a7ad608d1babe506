-- ===== src/Pipeline/Stash.antt =====
-- How many packets of the stash pass a test.
use sc_transport.Base.{
  ℕ, ◌+◌, ◌≤◌, ◌≡◌, refl, sym, ap, ◌∙◌, arith, Bool, true, false, ◌||◌, none, some, List, [], ◌∷◌,
  ◌==◌, ==_iff, Bool-cases, inl, inr,
}
use sc_transport.Base.Count.{count}
use sc_transport.Base.HashMap
use sc_transport.Base.HashMap.{HashMap}
use sc_transport.Base.HashSet.{contains, IsDistinct}
use sc_transport.Packet.{Packet}
use sc_transport.Parity.{or_default, upsert, stash_fec_packet}
use sc_transport.Parity.Stash.{seqs}
use sc_transport.Pipeline.{keys}

abbrev pub total : (Packet → Bool) → HashMap (List Packet) → ℕ
total f [] = 0
total f ((g, buf) ∷ stash) = count f buf + total f stash

-- the packets with a sequence number
abbrev pub has : ℕ → Packet → Bool
has seq p = p.seq == seq

pub contains-seqs :
    (ps : List Packet) (seq : ℕ) → count (has seq) ps ≡ 0 → contains (seqs ps) seq ≡ false
unfolding contains
contains-seqs [] seq h = refl
contains-seqs (p ∷ ps) seq h = ground (arith, contains-seqs ps seq)

pub count-has :
    (ps : List Packet) (seq : ℕ) → contains (seqs ps) seq ≡ false → count (has seq) ps ≡ 0
unfolding contains
count-has [] seq h = refl
count-has (p ∷ ps) seq h = ground (arith, count-has ps seq)

module _ (f : Packet → Bool) where
  count-upsert :
      (buf : List Packet) (p : Packet)
      → contains (seqs buf) p.seq ≡ false
      → count f (upsert buf p) ≡ count f buf + count f (p ∷ [])
  unfolding upsert contains
  count-upsert [] p new = omega arith
  count-upsert (q ∷ buf) p new = ground (arith, count-upsert buf p)

  pub total-put :
      (stash : HashMap (List Packet)) (g : ℕ) (buf : List Packet)
      → total f (HashMap.put stash g buf) + count f (or_default (HashMap.get stash g))
        ≡ total f stash + count f buf
  unfolding HashMap.put HashMap.get
  total-put [] g buf = omega arith
  total-put ((j, old) ∷ stash) g buf = ground (arith, total-put stash g buf)

  pub count-le-total :
      (stash : HashMap (List Packet)) (g : ℕ)
      → count f (or_default (HashMap.get stash g)) ≤ total f stash
  unfolding HashMap.get
  count-le-total [] g = omega arith
  count-le-total ((j, old) ∷ stash) g = ground (arith, count-le-total stash g)

  -- A packet whose sequence number is not in the stash is added to it.
  pub total-stash_fec_packet :
      (stash : HashMap (List Packet)) (g : ℕ) (p : Packet)
      → contains (seqs (or_default (HashMap.get stash g))) p.seq ≡ false
      → total f (stash_fec_packet stash g p) ≡ total f stash + count f (p ∷ [])
  unfolding stash_fec_packet
  total-stash_fec_packet stash g p new =
      let buf = or_default (HashMap.get stash g) in
      omega (arith, total-put stash g (upsert buf p), count-upsert buf p new)

  remove_absent :
      (stash : HashMap (List Packet)) (g : ℕ)
      → contains (keys stash) g ≡ false
      → HashMap.remove stash g ≡ stash
  unfolding HashMap.remove contains
  remove_absent [] g h = refl
  remove_absent ((j, old) ∷ stash) g h = ground (arith, remove_absent stash g)

  -- What a removal takes from the stash is the group.
  pub total-remove :
      (stash : HashMap (List Packet)) (g : ℕ)
      → IsDistinct (keys stash)
      → total f (HashMap.remove stash g) + count f (or_default (HashMap.get stash g))
        ≡ total f stash
  unfolding HashMap.remove HashMap.get
  total-remove [] g h = omega arith
  total-remove ((j, old) ∷ stash) g h = elim (Bool-cases (j == g)) [
    | inl same ↦
        let absent =
          remove_absent stash g (ap (contains (keys stash)) (sym ((==_iff j g).0 same)) ∙ h.0) in
        rw same (rw absent (omega arith))
    | inr other ↦ rw other (omega (arith, total-remove stash g h.1))
  ]

contains-keys-put :
    (stash : HashMap (List Packet)) (g : ℕ) (buf : List Packet) (j : ℕ)
    → contains (keys (HashMap.put stash g buf)) j ≡ (g == j || contains (keys stash) j)
unfolding HashMap.put contains
contains-keys-put [] g buf j = refl
contains-keys-put ((i, old) ∷ stash) g buf j = ground (arith, contains-keys-put stash g buf j)

pub keys-put-IsDistinct :
    (stash : HashMap (List Packet)) (g : ℕ) (buf : List Packet)
    → IsDistinct (keys stash)
    → IsDistinct (keys (HashMap.put stash g buf))
unfolding HashMap.put contains
keys-put-IsDistinct [] g buf h = (refl, tt)
keys-put-IsDistinct ((i, old) ∷ stash) g buf h =
    ground (arith, contains-keys-put stash g buf i, keys-put-IsDistinct stash g buf)

contains-keys-remove :
    (stash : HashMap (List Packet)) (g j : ℕ)
    → contains (keys stash) j ≡ false
    → contains (keys (HashMap.remove stash g)) j ≡ false
unfolding HashMap.remove contains
contains-keys-remove [] g j h = refl
contains-keys-remove ((i, old) ∷ stash) g j h = ground (arith, contains-keys-remove stash g j)

pub keys-remove-IsDistinct :
    (stash : HashMap (List Packet)) (g : ℕ)
    → IsDistinct (keys stash)
    → IsDistinct (keys (HashMap.remove stash g))
unfolding HashMap.remove
keys-remove-IsDistinct [] g h = tt
keys-remove-IsDistinct ((i, old) ∷ stash) g h =
    ground (arith, contains-keys-remove stash g i, keys-remove-IsDistinct stash g)

-- A map in which no key leads to a value has no entry.
pub total_of_none :
    (f : Packet → Bool) (stash : HashMap (List Packet))
    → ((g : ℕ) → contains (keys stash) g ≡ true → HashMap.get stash g ≡ none)
    → total f stash ≡ 0
unfolding HashMap.get contains
total_of_none f [] h = refl
total_of_none f ((g, buf) ∷ stash) h =
    let here : some buf ≡ none = let e = h g (ground arith) in ground (arith, e) in absurd (cc)
