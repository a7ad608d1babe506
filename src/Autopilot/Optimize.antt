-- ===== src/Autopilot/Optimize.antt =====
-- The loop of `optimize_transfer` of crates/sct-core/src/adaptive/mod.rs: it takes the packets of the
-- best block, some of them twice, until the blocks are done, and then all that is left.
use sc_transport.Base.{
  ℕ, zero, suc, ◌+◌, min, max, Bool, true, false, not, ◌&&◌, ◌||◌, Option, none, some, List, [],
  ◌∷◌, ◌++◌, map, length, set, range, leb, ◌==◌, if◌then◌else◌, saturating_sub, u64_max, ◌/◌,
}
use sc_transport.Base.Float.{Float, zero_f64}
use sc_transport.Base.HashMap
use sc_transport.Base.HashMap.{HashMap}
use sc_transport.Base.HashSet.{HashSet, contains}
use sc_transport.Packet.{Packet, Block, is_complete, remaining_data_shards}
use sc_transport.Parity.{FecEncoder, or_default}
use sc_transport.Multipath.{TransportPath, from_path_kinds}
use sc_transport.Multipath.Utility.{path_send_utility, duplicate_send_utility}
use sc_transport.Multipath.Pick.{sort_by_utility}
use sc_transport.Multipath.Scheduler.{MultiPathScheduler, path_states_snapshot}
use sc_transport.Autopilot.{SchedulingDecision, schedule_block, detect_stragglers, sort_blocks}

-- the packets by their groups, but those of completed groups
unfoldable pub group_packets : HashSet → HashMap (List Packet) → List Packet → HashMap (List Packet)
group_packets completed by_block [] = by_block
group_packets completed by_block (p ∷ packets) =
    let g = p.fec_group in
    let shards = or_default (HashMap.get by_block g) ++ (p ∷ []) in
    group_packets completed
      (if contains completed g then by_block else HashMap.put by_block g shards) packets

-- the block of a group with its packets
unfoldable pub block_of : FecEncoder → HashSet → ℕ × List Packet → Block
block_of fec completed (id, shards) = record {
  id = id;
  total_shards = length shards;
  required_shards = max (saturating_sub (length shards) fec.parity_shards) 1;
  sent_shards = min (length shards) fec.data_shards;
  received_acks = if contains completed id then u64_max / 2 else 0;
  in_flight = 0;
}

-- `shards.pop()`
unfoldable pub pop_last : List Packet → Option (Packet × List Packet)
pop_last [] = none
pop_last (p ∷ ps) = elim (pop_last ps) [ none ↦ some (p, []) | some (q, rest) ↦ some (q, p ∷ rest) ]

-- `while let Some(pkt) = shards.pop() { out.push(pkt) }`
unfoldable pub backwards : List Packet → List Packet
backwards [] = []
backwards (p ∷ ps) = backwards ps ++ (p ∷ [])

unfoldable pub drain_values : HashMap (List Packet) → List Packet
drain_values [] = []
drain_values ((g, shards) ∷ by_block) = backwards shards ++ drain_values by_block

unfoldable pub is_waiting : HashMap (List Packet) → ℕ → Bool
is_waiting by_block id = elim (or_default (HashMap.get by_block id)) [ [] ↦ false | _ ∷ _ ↦ true ]

-- the first block, from the index `i` on, that is not complete and has packets
unfoldable pub find_ready : HashMap (List Packet) → ℕ → List Block → Option (ℕ × Block)
find_ready by_block i [] = none
find_ready by_block i (b ∷ blocks) =
    if not (is_complete b) && is_waiting by_block b.id
    then some (i, b)
    else find_ready by_block (suc i) blocks

unfoldable pub all_done : HashMap (List Packet) → List Block → Bool
all_done by_block [] = true
all_done by_block (b ∷ blocks) =
    (is_complete b || not (is_waiting by_block b.id)) && all_done by_block blocks

pub record Schedule : Type 0 where
  pub by_block : HashMap (List Packet)
  pub blocks : List Block
  pub out : List Packet

module _ (float : Float) (scheduler : MultiPathScheduler float) (fec : FecEncoder) where
  open float use {F64, decimal, mul, lt}

  -- from the first path in the order of the utilities, and the others
  unfoldable pub duplicate_by :
      SchedulingDecision → Block → Packet → ℕ × F64 → List (ℕ × F64) → Bool
  duplicate_by decision block pkt (p0, u_new) rest =
      let paths = path_states_snapshot float scheduler in
      let corr = from_path_kinds float (map (λ (p : TransportPath). p.path_kind) scheduler.paths) in
      let u_dup : F64 = elim rest [
        | [] ↦ zero_f64 float
        | (p1, u1) ∷ _ ↦
            duplicate_send_utility float scheduler.queue_models pkt block [] fec.parity_shards
              (decimal 2 2) p0 p1 paths corr
      ] in
      let tail = leb (remaining_data_shards block) 2 in
      decision.duplicate
      && (decision.panic_mode || lt u_new u_dup || tail && lt (mul u_new (decimal 99 2)) u_dup)

  -- the paths with their utilities, the greatest first
  unfoldable pub utils_paths : Block → Packet → List (ℕ × F64)
  utils_paths block pkt =
      let paths = path_states_snapshot float scheduler in
      sort_by_utility float (
        map
          (λ (i : ℕ). (
            i,
            path_send_utility float scheduler.queue_models pkt block [] fec.parity_shards
                (decimal 2 2) i paths,
          ))
          (range (length paths)))

  -- `none` is the panic at `utils_paths[0]`, where there is no path.
  unfoldable pub should_send_duplicate : SchedulingDecision → Block → Packet → Option Bool
  should_send_duplicate decision block pkt = elim (utils_paths block pkt) [
    | [] ↦ none
    | first ∷ rest ↦ some (duplicate_by decision block pkt first rest)
  ]

  -- `for _ in 0..additional_shards`: the packets that go out, those that stay, and the block; `none`
  -- is a panic.
  unfoldable pub send_shards :
      SchedulingDecision → ℕ → List Packet → Block → Option (List Packet × List Packet × Block)
  send_shards decision zero shards block = some ([], shards, block)
  send_shards decision (suc k) shards block = elim (pop_last shards) [
    | none ↦ some ([], shards, block)
    | some (pkt, left) ↦
        let rest =
          send_shards decision k left (record block {
            sent_shards = block.sent_shards + 1;
            in_flight = block.in_flight + 1;
          }) in
        elim (should_send_duplicate decision block pkt) [
          | none ↦ none
          | some twice ↦ elim rest [
            | none ↦ none
            | some (out, kept, after) ↦
                some (pkt ∷ (if twice then pkt ∷ [] else []) ++ out, kept, after)
          ]
        ]
  ]

  -- the state after the packets of the block `block`, which stands at `i`; `none` is a panic.
  unfoldable pub send_block : Schedule → SchedulingDecision → ℕ → Block → Option Schedule
  send_block s decision i block =
      let shards = or_default (HashMap.get s.by_block block.id) in
      elim (send_shards decision decision.additional_shards shards block) [
        | none ↦ none
        | some (out, kept, after) ↦ some (record {
          by_block = HashMap.put s.by_block block.id kept;
          blocks = set s.blocks i after;
          out = s.out ++ out;
        })
      ]

  -- `none` means that the rounds are used up, or a panic.
  unfoldable pub schedule_loop : Bool → ℕ → Schedule → Option Schedule
  schedule_loop completion_first_enabled zero s = none
  schedule_loop completion_first_enabled (suc fuel) s =
      let sorted = sort_blocks float scheduler fec completion_first_enabled s.out s.blocks in
      let s' = record s { blocks = sorted } in
      elim (find_ready s.by_block 0 sorted) [
        | none ↦ some s'
        | some (i, block) ↦
            let stragglers =
              detect_stragglers float scheduler fec completion_first_enabled sorted in
            let decision =
              schedule_block completion_first_enabled block (contains stragglers block.id) in
            elim (send_block s' decision i block) [
              | none ↦ none
              | some next ↦
                  let rest = schedule_loop completion_first_enabled fuel next in
                  if decision.additional_shards == 0
                  then some s'
                  else if all_done next.by_block next.blocks
                  then some next
                  else rest
            ]
      ]

  unfoldable pub optimize_transfer : Bool → HashSet → List Packet → Option (List Packet)
  optimize_transfer completion_first_enabled completed packets =
      let by_block = group_packets completed [] packets in
      let start : Schedule = record {
        by_block = by_block;
        blocks = map (block_of fec completed) by_block;
        out = [];
      } in
      if not completion_first_enabled
      then some packets
      else elim (schedule_loop completion_first_enabled (suc (length packets)) start) [
        | none ↦ none
        | some s ↦ some (s.out ++ drain_values s.by_block)
      ]
