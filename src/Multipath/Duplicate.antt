-- ===== src/Multipath/Duplicate.antt =====
-- Whether a packet goes out twice: the tests of `distribute_and_send` of
-- crates/sct-core/src/adaptive/mod.rs.
use sc_transport.Base.{
  ℕ, ◌*◌, ◌/◌, max, min, Bool, true, false, not, ◌&&◌, ◌||◌, Option, none, some, List, [], ◌∷◌,
  get_elem?, ltb, leb, ◌==◌, if◌then◌else◌,
}
use sc_transport.Base.Float.{Float, clamp, zero_f64, one_f64}
use sc_transport.Base.HashSet.{contains}
use sc_transport.Packet.{Packet, is_critical, nearing_deadline}
use sc_transport.Multipath.{stream, datagram, TransportPath}
use sc_transport.Multipath.Scheduler.{
  CongestionSignal, PacketStabilization, MultiPathScheduler, estimate_unused_bandwidth,
}

abbrev pub is_large : Packet → Bool
is_large packet = leb (128 * 1024) packet.meta.size

abbrev pub is_medium : Packet → Bool
is_medium packet = leb (64 * 1024) packet.meta.size && ltb packet.meta.size (128 * 1024)

-- `by_utility.iter().map(|(i, _)| *i).find(|&i| i != primary_idx)`
unfoldable pub find_other : {F : Type 0} → List (ℕ × F) → ℕ → Option ℕ
find_other [] primary_idx = none
find_other ((i, u) ∷ rest) primary_idx =
    if not (i == primary_idx) then some i else find_other rest primary_idx

unfoldable pub is_datagram_path : List TransportPath → ℕ → Bool
is_datagram_path paths i = elim (get_elem? paths i) [
  | none ↦ false
  | some p ↦ elim p.path_kind [ stream ↦ false | datagram ↦ true ]
]

module _ (float : Float) where
  open float use {F64, decimal, of_ℕ, add, sub, mul, div, lt, to_ℕ}

  unfoldable pub headroom_boost : F64 → F64 → F64
  headroom_boost unused_bw target_send_rate =
      if lt (zero_f64 float) target_send_rate
      then clamp float (div unused_bw target_send_rate) (zero_f64 float) (one_f64 float)
      else zero_f64 float

  unfoldable pub speculative_limit :
      MultiPathScheduler float → F64 → CongestionSignal float → PacketStabilization float → F64 → ℕ
  speculative_limit s target_send_rate congestion stab tail_penalty =
      let one = one_f64 float in
      let boost =
        headroom_boost (estimate_unused_bandwidth float s target_send_rate) target_send_rate in
      let cq =
        float.max
          (sub one
            (mul (decimal 45 2) (clamp float congestion.queue_pressure (zero_f64 float) one)))
          (decimal 55 2) in
      let base =
        to_ℕ (mul (mul (add s.speculative_ratio (mul (decimal 15 2) boost)) (decimal 100 0)) cq) in
      let scaled = to_ℕ (
        clamp float
          (mul
            (mul (mul (of_ℕ (min (max base 8) 24)) stab.speculative_scale)
              stab.budget.max_duplication_rate)
            stab.oscillation_damp)
          (decimal 2 0) (decimal 64 0)) in
      if lt (decimal 35 4) tail_penalty then min scaled 12 else scaled

  unfoldable pub dynamic_dup_budget : ℕ → PacketStabilization float → ℕ
  dynamic_dup_budget duplicate_budget stab =
      let db = of_ℕ duplicate_budget in
      if duplicate_budget == 0
      then 0
      else to_ℕ
          (clamp float (float.round (mul db stab.budget.max_inflight_growth)) (one_f64 float) db)

  -- what the tests read of the path that was chosen, and of the second one
  pub record Candidates : Type 0 where
    pub primary_loss : F64
    pub best_expected : ℕ
    pub utility_primary : F64
    pub secondary_idx : Option ℕ
    pub u_dup : F64

  module _ (s : MultiPathScheduler float) (now : ℕ) (packet : Packet) (tail_penalty : F64)
      (fec_parity_ratio : F64) (stab : PacketStabilization float) (limit : ℕ) (c : Candidates) where
    unfoldable pub low_cost_fast : Bool
    low_cost_fast =
        lt c.primary_loss (decimal 2 2) && ltb c.best_expected 8_000_000 && is_large packet

    unfoldable pub fec_sufficient : Bool
    fec_sufficient =
        lt (decimal 28 2) fec_parity_ratio
        && (contains s.known_reconstructable packet.fec_group || is_large packet)

    unfoldable pub medium_unlock : Bool
    medium_unlock =
        lt c.primary_loss (decimal 1 2)
        && lt
            (clamp float (add (one_f64 float) (mul tail_penalty (decimal 80 0))) (one_f64 float)
              (decimal 10 0))
            (decimal 125 2)

    -- `should_duplicate`, as it is first
    unfoldable pub wants_duplicate : Bool
    wants_duplicate =
        let nearing = nearing_deadline packet now in
        let critical = is_critical packet in
        let dup_suppressed = stab.suppress_speculative_dup && not (critical || nearing) in
        let high_fec_large_payload = lt (decimal 24 2) fec_parity_ratio && is_large packet in
        let deadline_only_large = is_large packet && not nearing in
        let budget = dynamic_dup_budget s.duplicate_budget stab in
        not dup_suppressed
        && not low_cost_fast
        && not high_fec_large_payload
        && not deadline_only_large
        && lt c.utility_primary c.u_dup
        && ltb s.in_flight_duplicates limit
        && (critical && (lt c.utility_primary (decimal 12 2) || nearing)
            || lt c.utility_primary (decimal 8 2) && ltb s.in_flight_duplicates limit
            || nearing && ltb s.in_flight_duplicates (budget / 3))

    -- A duplicate of a large payload, and mostly of a medium one, does not go over datagrams.
    unfoldable pub is_refused : ℕ → Bool
    is_refused redundant_idx =
        let over_datagrams = is_datagram_path s.paths redundant_idx in
        over_datagrams && is_large packet
        || over_datagrams
          && is_medium packet
          && (not medium_unlock || lt c.utility_primary (decimal 5 2))

    -- the path that the duplicate goes out on, if there is one
    unfoldable pub redundant_path : Option ℕ
    redundant_path =
        if wants_duplicate
          && not fec_sufficient
          && ltb s.in_flight_duplicates (dynamic_dup_budget s.duplicate_budget stab)
        then elim c.secondary_idx [
          | none ↦ none
          | some redundant_idx ↦ if is_refused redundant_idx then none else some redundant_idx
        ]
        else none
