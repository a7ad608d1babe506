-- ===== src/Parity/Drain.antt =====
-- Which packets leave the stash as a block: `drain_fec_block_from_packets` of
-- crates/sct-core/src/adaptive/mod.rs.
use sc_transport.Base.{
  ℕ, zero, suc, ◌+◌, ◌-◌, ◌*◌, ◌≤◌, ◌≡◌, refl, sym, ap, ◌∙◌, arith, Bool, true, false, none, some,
  List, length, Bool-cases, ◌⊎◌, inl, inr, [], ◌∷◌, ◌==◌, ==_iff, max, range_from, saturating_add,
  saturating_mul, u64_max,
}
use sc_transport.Base.Count.{count}
use sc_transport.Base.HashSet.{contains, IsDistinct}
use sc_transport.Packet.{Packet}
use sc_transport.Parity.{FecEncoder, drain_block, sort_descending}
use sc_transport.Parity.Shards.{contains-range_from}
use sc_transport.Parity.Stash.{seqs}
use sc_transport.Parity.Remove.{
  remove_all_lem, contains-sort_descending, length-sort_descending, sort_descending-Descends,
  picked, length-Picks, contains-Picks,
}
use sc_transport.Parity.Located.{
  positions_lem, positions_missing, length-Located, contains-Located, Located-At,
  Located-IsDistinct,
}

-- the number of data shards of a block, and the indices of the chunks of a group
abbrev pub shards_of : FecEncoder → ℕ
shards_of fec = max fec.data_shards 1

abbrev pub group_indices : FecEncoder → ℕ → List ℕ
group_indices fec g =
    let base = saturating_mul g (shards_of fec) in
    range_from base (saturating_add base (shards_of fec) - base)

-- the end of the group is a `u64`
abbrev pub EndsInU64 : FecEncoder → ℕ → Type 0
EndsInU64 fec g = g * shards_of fec + shards_of fec ≤ u64_max

range_from-IsDistinct : (from n : ℕ) → IsDistinct (range_from from n)
range_from-IsDistinct from zero = tt
range_from-IsDistinct from (suc n) = (
  elim (Bool-cases (contains (range_from (suc from) n) from)) [
    | inl again ↦ absurd (omega (arith, contains-range_from (suc from) n from again))
    | inr new ↦ new
  ],
  range_from-IsDistinct (suc from) n,
)

length-range_from : (from n : ℕ) → length (range_from from n) ≡ n
length-range_from from zero = refl
length-range_from from (suc n) = ap suc (length-range_from (suc from) n)

pub length-group_indices :
    (fec : FecEncoder) (g : ℕ) → EndsInU64 fec g → length (group_indices fec g) ≡ shards_of fec
length-group_indices fec g h =
    let base = saturating_mul g (shards_of fec) in
    length-range_from base (saturating_add base (shards_of fec) - base) ∙ omega arith

-- The block has a packet for each chunk of the group, and as many packets as the group has chunks. It
-- and what is left have the packets of the stash, each as often.
pub record IsDrained (ps : List Packet) (g : ℕ) (fec : FecEncoder) (block left : List Packet)
    : Type 0 where
  pub drained : drain_block ps g fec ≡ some (block, left)
  pub complete :
      (idx : ℕ) → contains (group_indices fec g) idx ≡ true → contains (seqs block) idx ≡ true
  pub size : length block ≡ length (group_indices fec g)
  pub shared : (f : Packet → Bool) → count f ps ≡ count f block + count f left

-- If each chunk of a group has a packet in the stash, a block is drained, without a panic, that
-- has a packet for each of them and as many packets as there are chunks. The block and what is
-- left have the packets of the stash, each as often.
pub drain_block_complete :
    (ps : List Packet) (g : ℕ) (fec : FecEncoder)
    → ((idx : ℕ) → contains (group_indices fec g) idx ≡ true → contains (seqs ps) idx ≡ true)
    → (block : List Packet) × ((left : List Packet) × IsDrained ps g fec block left)
unfolding drain_block
drain_block_complete ps g fec h =
    let indices = group_indices fec g in
    let (poss, (found, located)) = positions_lem ps indices h in
    let distinct = Located-IsDistinct ps indices poss located (range_from-IsDistinct _ _) in
    let order = sort_descending poss in
    let (block, picks) = picked ps order λ i e.
      let (q, (at, _)) =
        contains-Located ps indices poss located i (sym (contains-sort_descending poss i) ∙ e) in
      (q, at) in
    let (left, removed, counts) =
      remove_all_lem ps order block (sort_descending-Descends poss distinct) picks in
    (
      block,
      (
        left,
        record {
          drained = ground (arith, found, removed);
          complete = λ idx e.
              let (i, (at_i, (q, (at, seq)))) = Located-At ps indices poss located idx e in
              ap (contains (seqs block)) (sym seq)
              ∙ contains-Picks ps order block i q picks (contains-sort_descending poss i ∙ at_i) at;
          size =
              length-Picks ps order block picks
              ∙ (length-sort_descending poss ∙ length-Located ps indices poss located);
          shared = counts;
        },
      ),
    )

-- While a chunk of the group has no packet in the stash, none leaves it.
pub drain_block_missing :
    (ps : List Packet) (g : ℕ) (fec : FecEncoder) (idx : ℕ)
    → contains (group_indices fec g) idx ≡ true
    → contains (seqs ps) idx ≡ false
    → drain_block ps g fec ≡ none
unfolding drain_block
drain_block_missing ps g fec idx here missing =
    ground (arith, positions_missing ps (group_indices fec g) idx here missing)

-- A chunk is missing from the stash, or none is.
missing_or_complete :
    (indices have : List ℕ)
    → ((idx : ℕ) × ((contains indices idx ≡ true) × (contains have idx ≡ false)))
      ⊎ ((idx : ℕ) → contains indices idx ≡ true → contains have idx ≡ true)
unfolding contains
missing_or_complete [] have = inr (λ idx e. absurd (ground arith))
missing_or_complete (i ∷ indices) have = elim (Bool-cases (contains have i)) [
  | inl here ↦ elim (missing_or_complete indices have) [
    | inl (idx, (wanted, missing)) ↦ inl (idx, (ground arith, missing))
    | inr all ↦ inr (λ idx e. elim (Bool-cases (i == idx)) [
      | inl same ↦ ap (contains have) (sym ((==_iff i idx).0 same)) ∙ here
      | inr other ↦ all idx (ground arith)
    ])
  ]
  | inr missing ↦ inl (i, (ground arith, missing))
]

-- A stash that no block leaves misses a chunk of the group, and a block that leaves it is complete.
pub drain_block_cases :
    (ps : List Packet) (g : ℕ) (fec : FecEncoder)
    → (drain_block ps g fec ≡ none)
      ⊎ ((block : List Packet) × ((left : List Packet) × IsDrained ps g fec block left))
drain_block_cases ps g fec = elim (missing_or_complete (group_indices fec g) (seqs ps)) [
  | inl (idx, (wanted, missing)) ↦ inl (drain_block_missing ps g fec idx wanted missing)
  | inr complete ↦ inr (drain_block_complete ps g fec complete)
]

pub length-group_indices-le :
    (fec : FecEncoder) (g : ℕ) → length (group_indices fec g) ≤ shards_of fec
length-group_indices-le fec g =
    let base = saturating_mul g (shards_of fec) in
    omega (arith, length-range_from base (saturating_add base (shards_of fec) - base))
