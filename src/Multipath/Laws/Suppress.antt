-- ===== src/Multipath/Laws/Suppress.antt =====
-- The flag that is to suppress second copies suppresses none: every packet has a deadline, or is
-- urgent, by the time that it is read.
use sc_transport.Base.{
  ℕ, ◌≡◌, refl, ap, arith, Bool, true, false, List, [], ◌∷◌, Bool-cases, inl, inr,
}
use sc_transport.Base.Float.{Float}
use sc_transport.Packet.{Packet, Block, is_critical}
use sc_transport.Multipath.Scheduler.{
  CongestionSignal, PacketStabilization, ControlState, MultiPathScheduler,
}
use sc_transport.Multipath.Duplicate.{
  speculative_limit, dynamic_dup_budget, Candidates, low_cost_fast, fec_sufficient, medium_unlock,
  wants_duplicate, is_refused, redundant_path,
}
use sc_transport.Multipath.Distribute.{with_deadline}
use sc_transport.Multipath.Send.{
  prepare, utilities, candidates, note_primary, send_chosen, distribute, distribute_and_send,
}

with_deadline-is_critical :
    (now rtt : ℕ) (packet : Packet) → is_critical (with_deadline now rtt packet) ≡ true
unfolding with_deadline is_critical
with_deadline-is_critical now rtt packet = ground arith

module _ (float : Float) where
  open float use {F64}

  abbrev pub with_suppress : PacketStabilization float → Bool → PacketStabilization float
  with_suppress stab flag = record stab { suppress_speculative_dup = flag }

  wants_duplicate_suppress :
      (s : MultiPathScheduler float) (now : ℕ) (packet : Packet) (tail_penalty : F64)
      (fec_parity_ratio : F64) (stab : PacketStabilization float) (limit : ℕ) (c : Candidates float)
      (flag : Bool)
      → is_critical packet ≡ true
      → wants_duplicate float s now packet tail_penalty fec_parity_ratio
          (with_suppress stab flag)
          limit
          c
        ≡ wants_duplicate float s now packet tail_penalty fec_parity_ratio stab limit c
  unfolding wants_duplicate low_cost_fast dynamic_dup_budget
  wants_duplicate_suppress s now packet tail_penalty fec_parity_ratio stab limit c true critical =
      elim (Bool-cases stab.suppress_speculative_dup) [
        | inl on ↦ rw (critical, on) refl
        | inr off ↦ rw (critical, off) refl
      ]
  wants_duplicate_suppress s now packet tail_penalty fec_parity_ratio stab limit c false critical =
      elim (Bool-cases stab.suppress_speculative_dup) [
        | inl on ↦ rw (critical, on) refl
        | inr off ↦ rw (critical, off) refl
      ]

  redundant_path_suppress :
      (s : MultiPathScheduler float) (now : ℕ) (packet : Packet) (tail_penalty : F64)
      (fec_parity_ratio : F64) (stab : PacketStabilization float) (limit : ℕ) (c : Candidates float)
      (flag : Bool)
      → is_critical packet ≡ true
      → redundant_path float s now packet tail_penalty fec_parity_ratio
          (with_suppress stab flag)
          limit
          c
        ≡ redundant_path float s now packet tail_penalty fec_parity_ratio stab limit c
  unfolding redundant_path is_refused fec_sufficient medium_unlock dynamic_dup_budget
  redundant_path_suppress s now packet tail_penalty fec_parity_ratio stab limit c flag critical =
      rw
        (wants_duplicate_suppress s now packet tail_penalty fec_parity_ratio stab limit c flag
          critical)
        refl

  module _ (now : ℕ) (block : Block) (tail_penalty : F64) (fec_parity_ratio : F64)
      (parity_shards : ℕ) (target_send_rate : F64) (congestion : CongestionSignal float)
      (inflight : List Packet) (stab : PacketStabilization float) (flag : Bool) where
    send_chosen_suppress :
        (s : MultiPathScheduler float) (packet : Packet) (util_raw util_vec : List (ℕ × F64))
        (primary : ℕ)
        → send_chosen float now block tail_penalty fec_parity_ratio parity_shards target_send_rate
            congestion inflight
            (with_suppress stab flag)
            s
            packet
            util_raw
            util_vec
            primary
          ≡ send_chosen float now block tail_penalty fec_parity_ratio parity_shards target_send_rate
              congestion inflight stab s packet util_raw util_vec primary
    unfolding send_chosen candidates note_primary speculative_limit
    send_chosen_suppress s packet util_raw util_vec primary =
        rw
          (redundant_path_suppress _ now _ tail_penalty fec_parity_ratio stab _ _ flag
            (with_deadline-is_critical now _ packet))
          refl

    distribute_suppress :
        (s : MultiPathScheduler float) (control : ControlState float) (packet : Packet)
        → distribute float now block tail_penalty fec_parity_ratio parity_shards target_send_rate
            congestion inflight
            (with_suppress stab flag)
            s
            control
            packet
          ≡ distribute float now block tail_penalty fec_parity_ratio parity_shards target_send_rate
              congestion inflight stab s control packet
    unfolding distribute prepare utilities
    distribute_suppress s control packet = rw (send_chosen_suppress _ packet _ _ _) refl

    -- Whether `suppress_speculative_dup` is set or not, `distribute_and_send` gives the same state
    -- of the scheduler and the same control state.
    pub distribute_and_send_suppress :
        (s : MultiPathScheduler float) (control : ControlState float) (packet : Packet)
        → distribute_and_send float now block tail_penalty fec_parity_ratio parity_shards
            target_send_rate congestion inflight
            (with_suppress stab flag)
            s
            control
            packet
          ≡ distribute_and_send float now block tail_penalty fec_parity_ratio parity_shards
              target_send_rate congestion inflight stab s control packet
    unfolding distribute_and_send
    distribute_and_send_suppress s control packet =
        ap
          (λ (sent : MultiPathScheduler float × ControlState float).
            elim s.paths as (λ _. MultiPathScheduler float × ControlState float) [
              | [] ↦ (s, control)
              | _ ∷ _ ↦ sent
            ])
          (distribute_suppress s control packet)
