-- ===== src/Autopilot/Laws.antt =====
-- How many packets go out, and how many stay, when `optimize_transfer` takes some.
use sc_transport.Base.{
  ℕ, zero, suc, ◌+◌, ◌*◌, ◌≤◌, ◌<◌, ◌≡◌, refl, sym, ap, ◌∙◌, arith, Bool, true, false, not, ◌&&◌,
  ◌⊎◌, none, some, List, [], ◌∷◌, ◌++◌, length, range, if◌then◌else◌, Bool-cases, inl, inr,
}
use sc_transport.Base.Count.{count, count-append}
use sc_transport.Base.Float.{Float}
use sc_transport.Base.HashMap
use sc_transport.Base.HashMap.{HashMap}
use sc_transport.Base.HashSet.{HashSet, contains}
use sc_transport.Packet.{Packet, Block, is_complete}
use sc_transport.Parity.{FecEncoder, or_default}
use sc_transport.Pipeline.Stash.{total, total-put}
use sc_transport.Multipath.Utility.{path_send_utility}
use sc_transport.Multipath.Pick.{comes_before, insert_by_utility, sort_by_utility}
use sc_transport.Multipath.{path_state}
use sc_transport.Multipath.Scheduler.{MultiPathScheduler, path_states_snapshot}
use sc_transport.Multipath.Laws.Sends.{length-map, length-range_from}
use sc_transport.Autopilot.{SchedulingDecision}
use sc_transport.Autopilot.Optimize.{
  group_packets, pop_last, backwards, drain_values, is_waiting, find_ready, duplicate_by,
  utils_paths, should_send_duplicate, send_shards,
}

-- the packets whose group is not completed
abbrev pub is_wanted : HashSet → (Packet → Bool) → Packet → Bool
is_wanted completed f p = f p && not (contains completed p.fec_group)

abbrev pub any : Packet → Bool
any p = true

-- A list is empty, or gives its last packet.
abbrev Pops : List Packet → Type 0
Pops ps =
    (r : Packet) × ((rest : List Packet) × (pop_last ps ≡ some (r, rest))
      × ((f : Packet → Bool) → count f ps ≡ (if f r then 1 else 0) + count f rest))

pop_last_cases : (ps : List Packet) → ((pop_last ps ≡ none) × (ps ≡ [])) ⊎ Pops ps
unfolding pop_last
pop_last_cases [] = inl (refl, refl)
pop_last_cases (p ∷ ps) = elim (pop_last_cases ps) [
  | inl (none_left, empty) ↦
      inr (p, ([], rw none_left refl, λ f. ap (λ l. (if f p then 1 else 0) + count f l) empty))
  | inr (r, (rest, popped, counts)) ↦
      inr (r, (p ∷ rest, rw popped refl, λ f. omega (arith, counts f)))
]

count-backwards : (f : Packet → Bool) (ps : List Packet) → count f (backwards ps) ≡ count f ps
unfolding backwards
count-backwards f [] = refl
count-backwards f (p ∷ ps) =
    omega (arith, count-append f (backwards ps) (p ∷ []), count-backwards f ps)

pub count-drain_values :
    (f : Packet → Bool) (by_block : HashMap (List Packet))
    → count f (drain_values by_block) ≡ total f by_block
unfolding drain_values
count-drain_values f [] = refl
count-drain_values f ((g, shards) ∷ by_block) = omega (
  arith,
  count-append f (backwards shards) (drain_values by_block),
  count-backwards f shards,
  count-drain_values f by_block,
)

-- Every packet of a group that is not completed is put into a group.
pub total-group_packets :
    (f : Packet → Bool) (completed : HashSet) (by_block : HashMap (List Packet))
    (packets : List Packet)
    → total f (group_packets completed by_block packets)
      ≡ total f by_block + count (is_wanted completed f) packets
unfolding group_packets
total-group_packets f completed by_block [] = omega arith
total-group_packets f completed by_block (p ∷ packets) =
    let g = p.fec_group in
    let shards = or_default (HashMap.get by_block g) in
    elim (Bool-cases (contains completed g)) [
      | inl done ↦ rw done (ground (arith, done, total-group_packets f completed by_block packets))
      | inr wanted ↦ rw wanted (
          ground (
            arith,
            wanted,
            total-group_packets f completed (HashMap.put by_block g (shards ++ (p ∷ []))) packets,
            total-put f by_block g (shards ++ (p ∷ [])),
            count-append f shards (p ∷ []),
          ))
    ]

-- How many packets pass a test is kept from `out` and `kept` to `out'` and `kept'`, where a packet of
-- `kept` may go out twice.
abbrev pub Moves : ℕ → ℕ → ℕ → ℕ → Type 0
Moves out kept out' kept' = (out + kept ≤ out' + kept') × (out' + 2 * kept' ≤ out + 2 * kept)

pub waiting_some :
    (by_block : HashMap (List Packet)) (id : ℕ)
    → is_waiting by_block id ≡ true
    → 0 < count any (or_default (HashMap.get by_block id))
unfolding is_waiting
waiting_some by_block id h = nonempty (or_default (HashMap.get by_block id)) h
  where
    nonempty :
        (shards : List Packet)
        → elim shards as (λ _. Bool) [ [] ↦ false | _ ∷ _ ↦ true ] ≡ true
        → 0 < count any shards
    nonempty [] h = absurd (ground arith)
    nonempty (p ∷ shards) h = omega arith

pub find_ready-is_waiting :
    (by_block : HashMap (List Packet)) (i : ℕ) (blocks : List Block) (j : ℕ) (b : Block)
    → find_ready by_block i blocks ≡ some (j, b)
    → is_waiting by_block b.id ≡ true
unfolding find_ready
find_ready-is_waiting by_block i [] j b h = absurd (ground arith)
find_ready-is_waiting by_block i (c ∷ blocks) j b h =
    let ready = not (is_complete c) && is_waiting by_block c.id in
    elim (Bool-cases ready) [
      | inl here ↦
          let same : c ≡ b = ground (arith, h, here) in
          ap (λ (d : Block). is_waiting by_block d.id) (sym same) ∙ ground (arith, here)
      | inr later ↦ ground (arith, later, find_ready-is_waiting by_block (suc i) blocks j b)
    ]

abbrev sent_one : Block → Block
sent_one block = record block {
  sent_shards = block.sent_shards + 1;
  in_flight = block.in_flight + 1;
}

copies_bounds :
    (f : Packet → Bool) (p : Packet) (b : Bool)
    → count f (if b then p ∷ [] else []) ≤ (if f p then 1 else 0)
copies_bounds f p true = omega arith
copies_bounds f p false = omega arith

-- Inserting a path into the order of the utilities never gives an empty list.
insert_by_utility_some :
    (float : Float) (x : ℕ × float.F64) (ys : List (ℕ × float.F64))
    → (y : ℕ × float.F64) × (zs : List (ℕ × float.F64)) × (insert_by_utility float x ys ≡ y ∷ zs)
unfolding insert_by_utility
insert_by_utility_some float x [] = (x, [], refl)
insert_by_utility_some float x (y ∷ ys) = elim (Bool-cases (comes_before float x y)) [
  | inl first ↦ (x, y ∷ ys, rw (first, insert_by_utility) refl)
  | inr later ↦ (y, insert_by_utility float x ys, rw (later, insert_by_utility) refl)
]

sort_by_utility_some :
    (float : Float) (xs : List (ℕ × float.F64))
    → 0 < length xs
    → (y : ℕ × float.F64) × (zs : List (ℕ × float.F64)) × (sort_by_utility float xs ≡ y ∷ zs)
unfolding sort_by_utility
sort_by_utility_some float [] h = absurd (omega arith)
sort_by_utility_some float (x ∷ xs) h = insert_by_utility_some float x (sort_by_utility float xs)

module _ (float : Float) (scheduler : MultiPathScheduler float) (fec : FecEncoder) where
  open float use {F64, decimal}

  utils_paths_some :
      (block : Block) (pkt : Packet)
      → 0 < length scheduler.paths
      → (first : ℕ × F64) × (rest : List (ℕ × F64)) × (utils_paths float scheduler fec block pkt
          ≡ first ∷ rest)
  unfolding utils_paths path_states_snapshot
  utils_paths_some block pkt h =
      let paths = path_states_snapshot float scheduler in
      sort_by_utility_some float _ (
        omega (
          arith,
          h,
          length-map {B = ℕ × F64}
              (λ (i : ℕ). (
                i,
                path_send_utility float scheduler.queue_models pkt block [] fec.parity_shards
                    (decimal 2 2) i paths,
              ))
              (range (length paths)),
          length-range_from 0 (length paths),
          length-map (path_state float) scheduler.paths,
        ))

  -- Where there is a path, nothing panics.
  should_send_duplicate_lem :
      (decision : SchedulingDecision) (block : Block) (pkt : Packet)
      → 0 < length scheduler.paths
      → (twice : Bool) × (should_send_duplicate float scheduler fec decision block pkt ≡ some twice)
  unfolding should_send_duplicate
  should_send_duplicate_lem decision block pkt h =
      let (first, rest, ranked) = utils_paths_some block pkt h in
      (
        duplicate_by float scheduler fec decision block pkt first rest,
        rw (should_send_duplicate, ranked) refl,
      )

  -- The packets that go out and those that stay are the packets of the block, of which some go out
  -- twice, and fewer stay if there are packets and rounds.
  pub record Sends (k : ℕ) (shards out kept : List Packet) : Type 0 where
    pub moves : (f : Packet → Bool) → Moves 0 (count f shards) (count f out) (count f kept)
    pub keeps : (f : Packet → Bool) → count f kept ≤ count f shards
    pub shrinks : 0 < count any shards → 0 < k → count any kept < count any shards

  pub send_shards-Sends :
      (decision : SchedulingDecision) (k : ℕ) (shards : List Packet) (block : Block)
      → 0 < length scheduler.paths
      → (out : List Packet) × (kept : List Packet) × (after : Block) × (send_shards float scheduler
            fec decision k shards block
          ≡ some (out, kept, after))
        × Sends k shards out kept
  unfolding send_shards
  send_shards-Sends decision zero shards block h = (
    [],
    shards,
    block,
    refl,
    record {
      moves = λ f. omega arith;
      keeps = λ f. omega arith;
      shrinks = λ some_packet some_round. absurd (omega arith);
    },
  )
  send_shards-Sends decision (suc k) shards block h = elim (pop_last_cases shards) [
    | inl (none_left, empty) ↦ (
      [],
      shards,
      block,
      rw (none_left, send_shards) refl,
      record {
        moves = λ f. omega arith;
        keeps = λ f. omega arith;
        shrinks = λ some_packet some_round. absurd (omega (arith, ap (count any) empty));
      },
    )
    | inr (p, (rest, popped, counts)) ↦
        let (twice, tested) = should_send_duplicate_lem decision block p h in
        let (out, kept, after, ran, sends) = send_shards-Sends decision k rest (sent_one block) h in
        let again = if twice then p ∷ [] else [] in
        (
          p ∷ again ++ out,
          kept,
          after,
          rw (popped, send_shards, tested, ran) refl,
          record {
            moves = λ f. omega (
              arith,
              counts f,
              sends.moves f,
              copies_bounds f p twice,
              count-append f (p ∷ again) out,
            );
            keeps = λ f. omega (arith, counts f, sends.keeps f);
            shrinks = λ some_packet some_round. omega (arith, counts any, sends.keeps any);
          },
        )
  ]
