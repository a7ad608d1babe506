-- ===== src/Multipath/Laws/Sends.antt =====
-- `distribute_and_send` sends every packet, once or twice, and keeps to its budget of copies.
use sc_transport.Base.{
  ℕ, zero, suc, Bool-cases, inl, inr, ◌==◌, ◌+◌, ◌≤◌, ◌<◌, ◌≡◌, refl, ap, ◌∙◌, arith, Option, none,
  some, List, [], ◌∷◌, map, length, range, range_from, is_some, if◌then◌else◌,
}
use sc_transport.Base.Float.{Float, clamp, zero_f64, one_f64}
use sc_transport.Packet.{Packet, Block}
use sc_transport.Multipath.Scheduler.{
  CongestionSignal, PacketStabilization, ControlState, MultiPathScheduler, smoothed_utility,
}
use sc_transport.Multipath.Duplicate.{dynamic_dup_budget}
use sc_transport.Multipath.Distribute.{blend, exploration_epsilon, max_utility}
use sc_transport.Multipath.Send.{prepare, utilities, distribute, distribute_and_send}
use sc_transport.Multipath.Laws.{pick_primary_path_lem}
use sc_transport.Multipath.Laws.Second.{IsAllowed}
use sc_transport.Multipath.Laws.Out.{
  GoesOut, GoesOut-from, prepare-HasPaths, send_chosen-GoesOut, utilities-AreInRange,
}

pub length-map {ℓ κ} :
    {A : Type ℓ} {B : Type κ} (f : A → B) (xs : List A) → length (map f xs) ≡ length xs
length-map f [] = refl
length-map f (x ∷ xs) = ap suc (length-map f xs)

pub length-range_from : (from n : ℕ) → length (range_from from n) ≡ n
length-range_from from zero = refl
length-range_from from (suc n) = ap suc (length-range_from (suc from) n)

dynamic_dup_budget-le :
    (float : Float) (stab : PacketStabilization float) (n : ℕ)
    → ((x : float.F64) → float.to_ℕ (clamp float x (one_f64 float) (float.of_ℕ n)) ≤ n)
    → dynamic_dup_budget float n stab ≤ n
unfolding dynamic_dup_budget
dynamic_dup_budget-le float stab n cut = elim (Bool-cases (n == 0)) [
  | inl empty ↦ rw empty (omega arith)
  | inr some_budget ↦ rw some_budget (cut _)
]

counted_within :
    (o : Option ℕ) (in_flight budget dynamic : ℕ)
    → IsAllowed o in_flight dynamic
    → dynamic ≤ budget
    → in_flight ≤ budget
    → in_flight + (if is_some o then 1 else 0) ≤ budget
counted_within none in_flight budget dynamic h le within = omega arith
counted_within (some r) in_flight budget dynamic h le within = omega arith

module _ (float : Float) (now : ℕ) (block : Block) (tail_penalty : float.F64)
    (fec_parity_ratio : float.F64) (parity_shards : ℕ) (target_send_rate : float.F64)
    (congestion : CongestionSignal float) (inflight : List Packet)
    (stab : PacketStabilization float) where
  open float use {F64}

  length-utilities :
      (s : MultiPathScheduler float) (packet : Packet)
      → length (
          utilities float now block tail_penalty fec_parity_ratio parity_shards target_send_rate
            congestion inflight stab s packet)
        ≡ length s.paths
  unfolding utilities
  length-utilities s packet = length-map _ (range (length s.paths)) ∙ length-range_from 0 _

  distribute-GoesOut :
      (s : MultiPathScheduler float) (control : ControlState float) (packet : Packet)
      → 0 < length s.paths
      → GoesOut float stab s
          (distribute float now block tail_penalty fec_parity_ratio parity_shards target_send_rate
            congestion inflight stab s control packet).0
          packet
  unfolding distribute
  distribute-GoesOut s control packet nonempty =
      let prepared =
        prepare float now block tail_penalty fec_parity_ratio parity_shards target_send_rate
          congestion inflight stab s packet in
      let kept =
        prepare-HasPaths float now block tail_penalty fec_parity_ratio parity_shards
          target_send_rate congestion inflight stab s packet in
      let util_raw =
        utilities float now block tail_penalty fec_parity_ratio parity_shards target_send_rate
          congestion inflight stab prepared packet in
      let u_max = max_utility float (zero_f64 float) util_raw in
      let momentum = smoothed_utility float (float.decimal 26 2) u_max control.utility_momentum in
      let denom = float.max u_max (float.decimal 1 9) in
      let util_vec = map (blend float momentum denom) util_raw in
      let ranges =
        utilities-AreInRange float now block tail_penalty fec_parity_ratio parity_shards
          target_send_rate congestion inflight stab prepared packet momentum denom in
      let some_utility : 0 < length util_vec = omega (
        arith,
        length-map (blend float momentum denom) util_raw,
        length-utilities prepared packet,
        ap length kept.0,
      ) in
      let (primary, picked, in_range) =
        pick_primary_path_lem float (length prepared.paths) util_vec prepared.exploration_seed
          (exploration_epsilon float packet.meta.size) ranges some_utility in
      rw picked (
        GoesOut-from float stab _ s _ packet kept (
          send_chosen-GoesOut float now block tail_penalty fec_parity_ratio parity_shards
            target_send_rate congestion inflight stab _ packet util_raw util_vec primary in_range
            ranges))

  nonempty_distributes :
      (s : MultiPathScheduler float) (control : ControlState float) (packet : Packet)
      → 0 < length s.paths
      → distribute_and_send float now block tail_penalty fec_parity_ratio parity_shards
          target_send_rate congestion inflight stab s control packet
        ≡ distribute float now block tail_penalty fec_parity_ratio parity_shards target_send_rate
            congestion inflight stab s control packet
  unfolding distribute_and_send
  nonempty_distributes s control packet h = ground (arith, h)

  -- If the scheduler has paths, then whatever the utilities are, `distribute_and_send` sends the
  -- packet, with no change but to its deadline, on one of its paths and at most one other, and
  -- nothing on any other path. A second copy goes out only where fewer copies are in flight than
  -- the budget at the time allows, and is counted as in flight.
  pub distribute_and_send-GoesOut :
      (s : MultiPathScheduler float) (control : ControlState float) (packet : Packet)
      → 0 < length s.paths
      → GoesOut float stab s
          (distribute_and_send float now block tail_penalty fec_parity_ratio parity_shards
            target_send_rate congestion inflight stab s control packet).0
          packet
  distribute_and_send-GoesOut s control packet h =
      rw (nonempty_distributes s control packet h) (distribute-GoesOut s control packet h)

  -- If the scheduler has paths, and a number that is clamped to the budget is no more than the
  -- budget when it is cut to a whole one: where no more copies than the budget are in flight
  -- before `distribute_and_send`, no more are afterwards.
  pub distribute_and_send-IsWithinBudget :
      (s : MultiPathScheduler float) (control : ControlState float) (packet : Packet)
      → ((x : F64)
          → float.to_ℕ (clamp float x (one_f64 float) (float.of_ℕ s.duplicate_budget))
            ≤ s.duplicate_budget)
      → 0 < length s.paths
      → s.in_flight_duplicates ≤ s.duplicate_budget
      → let s' =
          (distribute_and_send float now block tail_penalty fec_parity_ratio parity_shards
            target_send_rate congestion inflight stab s control packet).0 in
        s'.in_flight_duplicates ≤ s'.duplicate_budget
  distribute_and_send-IsWithinBudget s control packet cut h within =
      let out = distribute_and_send-GoesOut s control packet h in
      let budget = dynamic_dup_budget-le float stab s.duplicate_budget cut in
      omega (
        arith,
        out.counted,
        out.budget,
        counted_within out.redundant s.in_flight_duplicates s.duplicate_budget _ out.allowed budget
            within,
      )
