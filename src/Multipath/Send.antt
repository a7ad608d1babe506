-- ===== src/Multipath/Send.antt =====
-- `distribute_and_send` of crates/sct-core/src/adaptive/mod.rs as a whole: the utilities of the paths,
-- the choice of one, and the copies that go out. The clock is read once, as `now`.
use mathlib.Core.Option
use sc_transport.Base.{ℕ, ◌+◌, List, [], ◌∷◌, map, length, get_elem?, range}
use sc_transport.Base.Float.{Float, zero_f64}
use sc_transport.Packet.{Packet, Block}
use sc_transport.Multipath.{PathState}
use sc_transport.Multipath.Utility.{
  unwrap_or, estimate_completion, path_send_utility, duplicate_send_utility,
}
use sc_transport.Multipath.Pick.{sort_by_utility, pick_primary_path}
use sc_transport.Multipath.Scheduler.{
  CongestionSignal, PacketStabilization, ControlState, smoothed_utility, MultiPathScheduler, burst,
  sync_queue_models_and_correlation, path_states_snapshot, refill_tokens,
}
use sc_transport.Multipath.Duplicate.{find_other, speculative_limit, Candidates, redundant_path}
use sc_transport.Multipath.Distribute.{
  exploration_epsilon, utility_of, rtt_at, with_deadline, max_utility, blend, debit, note_send,
  count_send, queue_delay_of, send_copies,
}

module _ (float : Float) (now : ℕ) (block : Block) (tail_penalty : float.F64)
    (fec_parity_ratio : float.F64) (parity_shards : ℕ) (target_send_rate : float.F64)
    (congestion : CongestionSignal float) (inflight : List Packet)
    (stab : PacketStabilization float) where
  open float use {F64, decimal, sub, mul}

  unfoldable pub prepare : MultiPathScheduler float → Packet → MultiPathScheduler float
  prepare s packet =
      debit float
        (refill_tokens float (sync_queue_models_and_correlation float s) now
          (mul target_send_rate stab.pacing_scale))
        packet.meta.size

  -- `util_raw`: the paths with their utilities
  unfoldable pub utilities : MultiPathScheduler float → Packet → List (ℕ × F64)
  utilities s packet =
      let snap = path_states_snapshot float s in
      map
        (λ (i : ℕ). (
          i,
          path_send_utility float s.queue_models packet block inflight parity_shards tail_penalty i
              snap,
        ))
        (range (length s.paths))

  -- what is known of the path `primary_idx` and of the next best one, with the packet as it goes out
  unfoldable pub candidates :
      MultiPathScheduler float → List (ℕ × F64) → ℕ → Packet → F64 → Candidates float
  candidates s util_vec primary_idx packet utility_primary =
      let zero_f = zero_f64 float in
      let snap = path_states_snapshot float s in
      let secondary_idx = find_other (sort_by_utility float util_vec) primary_idx in
      let u_dup = λ (sec : ℕ).
        mul
          (duplicate_send_utility float s.queue_models packet block inflight parity_shards
            tail_penalty primary_idx sec snap s.path_correlation)
          stab.dup_utility_scale in
      record {
        primary_loss =
            unwrap_or zero_f
              (Option.map (λ (p : PathState float). p.loss) (get_elem? snap primary_idx));
        best_expected =
            rtt_at s.paths primary_idx
            + float.from_secs_f64 (float.max (queue_delay_of float s snap primary_idx) zero_f);
        utility_primary = utility_primary;
        secondary_idx = secondary_idx;
        u_dup = unwrap_or zero_f (Option.map u_dup secondary_idx);
      }

  -- the state in which the path of the packet is noted, and nothing was sent
  unfoldable pub note_primary :
      MultiPathScheduler float → Packet → F64 → F64 → ℕ → MultiPathScheduler float
  note_primary s packet pacing_deficit utility_raw primary_idx =
      let noted =
        note_send float (record s { last_primary_utility = float.max utility_raw (decimal 1 9) })
          primary_idx packet.meta.size pacing_deficit in
      let snap = path_states_snapshot float noted in
      let est =
        estimate_completion float block snap inflight parity_shards
          (queue_delay_of float noted snap primary_idx) in
      count_send float noted packet.meta.size est.probability utility_raw

  unfoldable pub send_chosen :
      MultiPathScheduler float
      → Packet
      → List (ℕ × F64)
      → List (ℕ × F64)
      → ℕ
      → MultiPathScheduler float
  send_chosen s packet util_raw util_vec primary_idx =
      let utility_primary = unwrap_or (zero_f64 float) (utility_of util_vec primary_idx) in
      let utility_raw = unwrap_or utility_primary (utility_of util_raw primary_idx) in
      let stamped = with_deadline now (rtt_at s.paths primary_idx) packet in
      let pacing_deficit = float.max (sub (burst float) s.tokens) (zero_f64 float) in
      let noted = note_primary s packet pacing_deficit utility_raw primary_idx in
      let c = candidates noted util_vec primary_idx stamped utility_primary in
      let limit = speculative_limit float noted target_send_rate congestion stab tail_penalty in
      send_copies float noted primary_idx
        (redundant_path float noted now stamped tail_penalty fec_parity_ratio stab limit c) stamped
        pacing_deficit c.u_dup

  -- for a scheduler that has paths
  unfoldable pub distribute :
      MultiPathScheduler float
      → ControlState float
      → Packet
      → MultiPathScheduler float × ControlState float
  distribute s control packet =
      let prepared = prepare s packet in
      let util_raw = utilities prepared packet in
      let u_max_raw = max_utility float (zero_f64 float) util_raw in
      let momentum = smoothed_utility float (decimal 26 2) u_max_raw control.utility_momentum in
      let util_vec = map (blend float momentum (float.max u_max_raw (decimal 1 9))) util_raw in
      let picked =
        pick_primary_path float util_vec prepared.exploration_seed
          (exploration_epsilon float packet.meta.size) in
      (
        send_chosen (record prepared { exploration_seed = picked.1 }) packet util_raw util_vec
            (unwrap_or 0 picked.0),
        record control { utility_momentum = momentum },
      )

  unfoldable pub distribute_and_send :
      MultiPathScheduler float
      → ControlState float
      → Packet
      → MultiPathScheduler float × ControlState float
  distribute_and_send s control packet = elim s.paths [
    | [] ↦ (s, control)
    | _ ∷ _ ↦ distribute s control packet
  ]
