-- ===== src/Tests/Multipath.antt =====
-- A scheduler with two paths, and the packets that it sends.
use sc_transport.Base.{ℕ, ◌≤◌, ◌≡◌, refl, arith, true, false, some, [], ◌∷◌, map, length}
use sc_transport.Base.Float.{clamp, one_f64}
use sc_transport.Packet.{Packet, Block, is_critical, nearing_deadline, remaining_data_shards}
use sc_transport.Base.HashSet.{contains}
use sc_transport.Multipath.{
  TransportPath, stream, datagram, send, estimated_rtt, estimated_bandwidth, loss_rate, path_state,
  from_path_kinds, correlation_rows, correlation_row, kind_rho, rho, default_queue_model,
  predicted_queue_delay, predicted_queue_at_horizon, observe_delay, on_send,
}
use sc_transport.Multipath.Utility.{
  joint_failure_probability, effective_paths, inflight_of, avg_rtt_s, avg_loss, estimate_some,
  estimate_completion, tail_urgency_multiplier, marginal_time_reduction_s, bandwidth_cost_s,
  queue_model, utility_at, path_send_utility, duplicate_utility_at, duplicate_send_utility,
}
use sc_transport.Multipath.Pick.{
  comes_before, insert_by_utility, sort_by_utility, epsilon_greedy_explore, xorshift, xorshift_u01,
  pick_sorted, pick_primary_path,
}
use sc_transport.Multipath.Duplicate.{
  find_other, is_datagram_path, headroom_boost, speculative_limit, dynamic_dup_budget,
  low_cost_fast, fec_sufficient, medium_unlock, wants_duplicate, is_refused, redundant_path,
}
use sc_transport.Multipath.Distribute.{
  send_on, exploration_epsilon, utility_of, rtt_at, with_deadline, bandwidth_at, max_utility, blend,
  debit, note_send, count_send, queue_delay_of, send_copies,
}
use sc_transport.Multipath.Scheduler.{
  CongestionSignal, PacketStabilization, ControlState, MultiPathScheduler, smoothed_utility,
  estimate_unused_bandwidth, resize_models, sync_queue_models_and_correlation, path_states_snapshot,
  refill_tokens,
}
use sc_transport.Multipath.Send.{
  prepare, utilities, candidates, note_primary, send_chosen, distribute, distribute_and_send,
}
use sc_transport.Multipath.Laws.Out.{GoesOut}
use sc_transport.Multipath.Laws.Sends.{
  distribute_and_send-GoesOut, distribute_and_send-IsWithinBudget,
}
use sc_transport.Multipath.Laws.Suppress.{with_suppress, distribute_and_send_suppress}
use sc_transport.Tests.Datagrams.{toy_float}

abbrev stream_path : TransportPath
stream_path = record {
  path_kind = stream;
  rtt_ms = 20_000;
  bw_kbps = 1;
  loss_per_mille = 300;
  sent = [];
}

abbrev datagram_path : TransportPath
datagram_path = record stream_path { path_kind = datagram; loss_per_mille = 100 }

abbrev pub two_paths : MultiPathScheduler toy_float
two_paths = record {
  paths = stream_path ∷ datagram_path ∷ [];
  speculative_ratio = 150;
  duplicate_budget = 16;
  in_flight_duplicates = 3;
  known_reconstructable = [];
  tokens = 0;
  last_token_refill = 0;
  last_primary_utility = 0;
  queue_models = [];
  path_correlation = [];
  optimization_kpi = record {
    bytes_sent = 0;
    utility_sum = 0;
    duplicate_bytes = 0;
    duplicate_utility_sum = 0;
    correlation_penalty_area = 0;
    queue_pred_error_ewma = 0;
    completion_prob_samples = 0;
    completion_prob_observed = 0;
  };
  exploration_seed = 1;
}

abbrev late_packet : Packet
late_packet = record {
  id = 4;
  seq = 4;
  payload = 4 ∷ 5 ∷ [];
  is_parity = false;
  meta = record { id = 4; priority = 240; deadline = some 10_000_000; size = 2 };
  fec_group = 2;
  reconstructable = false;
  parity_index = 0;
}

abbrev its_block : Block
its_block = record {
  id = 2;
  total_shards = 3;
  required_shards = 2;
  sent_shards = 0;
  received_acks = 0;
  in_flight = 1;
}

abbrev calm : CongestionSignal toy_float
calm = record { queue_pressure = 0; retransmission_pressure = 0; completion_pressure = 0 }

abbrev steady : PacketStabilization toy_float
steady = record {
  budget = record {
    max_duplication_rate = 1000;
    max_fec_overhead = 1000;
    max_inflight_growth = 1000;
  };
  pacing_scale = 1000;
  speculative_scale = 1000;
  dup_utility_scale = 1_000_000;
  suppress_speculative_dup = false;
  oscillation_damp = 1000;
  ranking_pressure_scale = 1000;
}

abbrev at_rest : ControlState toy_float
at_rest = record { utility_momentum = 0; pacing_momentum = 0; duplication_momentum = 0 }

distribute_and_send-GoesOut_example :
    GoesOut toy_float steady two_paths
      (distribute_and_send toy_float 0 its_block 0 0 1 1_000_000 calm [] steady two_paths at_rest
        late_packet).0
      late_packet
distribute_and_send-GoesOut_example =
    distribute_and_send-GoesOut toy_float 0 its_block 0 0 1 1_000_000 calm [] steady two_paths
      at_rest late_packet (omega arith)

toy_cut : (x : ℕ) → toy_float.to_ℕ (clamp toy_float x (one_f64 toy_float) (toy_float.of_ℕ 16)) ≤ 16
toy_cut x = ground arith

distribute_and_send-IsWithinBudget_example :
    let s' =
      (distribute_and_send toy_float 0 its_block 0 0 1 1_000_000 calm [] steady two_paths at_rest
        late_packet).0 in
    s'.in_flight_duplicates ≤ s'.duplicate_budget
distribute_and_send-IsWithinBudget_example =
    distribute_and_send-IsWithinBudget toy_float 0 its_block 0 0 1 1_000_000 calm [] steady
      two_paths at_rest late_packet toy_cut (omega arith) (omega arith)

distribute_and_send_suppress_example :
    distribute_and_send toy_float 0 its_block 0 0 1 1_000_000 calm []
      (with_suppress toy_float steady true)
      two_paths
      at_rest
      late_packet
    ≡ distribute_and_send toy_float 0 its_block 0 0 1 1_000_000 calm [] steady two_paths at_rest
        late_packet
distribute_and_send_suppress_example =
    distribute_and_send_suppress toy_float 0 its_block 0 0 1 1_000_000 calm [] steady true two_paths
      at_rest late_packet

-- the code of the test that runs
sending : Unit {0}
unfolding send estimated_rtt estimated_bandwidth loss_rate path_state from_path_kinds
    correlation_rows correlation_row kind_rho rho default_queue_model predicted_queue_delay
    predicted_queue_at_horizon observe_delay on_send joint_failure_probability effective_paths
    inflight_of avg_rtt_s avg_loss estimate_some estimate_completion tail_urgency_multiplier
    marginal_time_reduction_s bandwidth_cost_s queue_model utility_at path_send_utility
    duplicate_utility_at duplicate_send_utility comes_before insert_by_utility sort_by_utility
    epsilon_greedy_explore xorshift xorshift_u01 pick_sorted pick_primary_path find_other
    is_datagram_path headroom_boost speculative_limit dynamic_dup_budget low_cost_fast
    fec_sufficient medium_unlock wants_duplicate is_refused redundant_path send_on
    exploration_epsilon utility_of rtt_at with_deadline bandwidth_at max_utility blend debit
    note_send count_send queue_delay_of send_copies smoothed_utility estimate_unused_bandwidth
    resize_models sync_queue_models_and_correlation path_states_snapshot refill_tokens prepare
    utilities candidates note_primary send_chosen distribute distribute_and_send is_critical
    nearing_deadline remaining_data_shards contains
sending = tt

-- The late packet goes out on both paths.
sent_twice :
    map
      (λ (p : TransportPath). length p.sent)
      (distribute_and_send toy_float 0 its_block 0 0 1 1_000_000 calm [] steady two_paths at_rest
        late_packet).0.paths
    ≡ 1 ∷ 1 ∷ []
unfolding sending
sent_twice = refl
