-- ===== src/Multipath/Laws/Out.antt =====
-- A packet that is given to the scheduler goes out, once or twice.
use sc_transport.Base.{
  ℕ, ◌+◌, ◌<◌, ◌≡◌, refl, ap, ◌∙◌, arith, Option, none, some, List, ◌++◌, map, length, ltb,
  if◌then◌else◌, is_some, Bool-cases, inl, inr, append_assoc,
}
use sc_transport.Base.Float.{Float}
use sc_transport.Packet.{Packet, Block}
use sc_transport.Multipath.{TransportPath}
use sc_transport.Multipath.Scheduler.{
  CongestionSignal, PacketStabilization, MultiPathScheduler, sync_queue_models_and_correlation,
  refill_tokens,
}
use sc_transport.Multipath.Duplicate.{dynamic_dup_budget}
use sc_transport.Multipath.Distribute.{
  send_on, with_deadline, blend, debit, note_send, count_send, send_copies, rtt_at,
}
use sc_transport.Multipath.Send.{prepare, utilities, candidates, note_primary, send_chosen}
use sc_transport.Multipath.Laws.{AreInRange, map-range_from-AreInRange, blend-AreInRange}
use sc_transport.Multipath.Laws.Second.{
  IsSecond, IsAllowed, IsAllowed-eq, redundant-IsSecond, redundant-IsAllowed,
}
use sc_transport.Multipath.Laws.Logs.{sent_of, copy_on, sent_of-send_on, length-send_on}

-- what goes out on the path `j`, when a packet goes out on one path and maybe on a second one
abbrev pub copies_on : ℕ → Option ℕ → Packet → ℕ → List Packet
copies_on primary none packet j = copy_on primary packet j
copies_on primary (some redundant) packet j = copy_on primary packet j ++ copy_on redundant packet j

-- the same packet, maybe with another deadline
abbrev pub SamePacket : Packet → Packet → Type 0
SamePacket p q =
    (deadline : Option ℕ) × (q ≡ record p { meta = record p.meta { deadline = deadline } })

with_deadline-SamePacket :
    (now rtt : ℕ) (packet : Packet) → SamePacket packet (with_deadline now rtt packet)
unfolding with_deadline
with_deadline-SamePacket now rtt packet = elim (Bool-cases (ltb packet.meta.priority 200)) [
  | inl plain ↦ (some (now + rtt + 200_000_000), rw plain refl)
  | inr urgent ↦ (packet.meta.deadline, rw urgent refl)
]

module _ (float : Float) where
  open float use {F64}

  -- How the state changes when a packet is sent: the packet, with its deadline, goes out on a path
  -- of the scheduler and at most one other, no other path gets anything, and a second copy is counted.
  pub record GoesOut (stab : PacketStabilization float) (s s' : MultiPathScheduler float)
      (packet : Packet) : Type 0 where
    pub primary : ℕ
    pub redundant : Option ℕ
    pub copy : Packet
    pub in_range : primary < length s.paths
    pub second : IsSecond (length s.paths) primary redundant
    pub allowed :
        IsAllowed redundant s.in_flight_duplicates
          (dynamic_dup_budget float s.duplicate_budget stab)
    pub same : SamePacket packet copy
    pub logs :
        (j : ℕ) → sent_of s'.paths j ≡ sent_of s.paths j ++ copies_on primary redundant copy j
    pub counted :
        s'.in_flight_duplicates ≡ s.in_flight_duplicates + (if is_some redundant then 1 else 0)
    pub budget : s'.duplicate_budget ≡ s.duplicate_budget

  note_send_kept :
      (s : MultiPathScheduler float) (i size : ℕ) (deficit : F64)
      → ((note_send float s i size deficit).paths ≡ s.paths)
        × ((note_send float s i size deficit).in_flight_duplicates ≡ s.in_flight_duplicates)
        × ((note_send float s i size deficit).duplicate_budget ≡ s.duplicate_budget)
  unfolding note_send
  note_send_kept s i size deficit = ground arith

  send_copies-logs :
      (s : MultiPathScheduler float) (primary : ℕ) (redundant : Option ℕ) (packet : Packet)
      (deficit u_dup : F64)
      → primary < length s.paths
      → IsSecond (length s.paths) primary redundant
      → (j : ℕ)
      → sent_of (send_copies float s primary redundant packet deficit u_dup).paths j
        ≡ sent_of s.paths j ++ copies_on primary redundant packet j
  unfolding send_copies
  send_copies-logs s primary none packet deficit u_dup h second j =
      sent_of-send_on s.paths primary j packet h
  send_copies-logs s primary (some redundant) packet deficit u_dup h second j =
      let once = send_on s.paths primary packet in
      let both = record s {
        paths = send_on once redundant packet;
        in_flight_duplicates = s.in_flight_duplicates + 1;
      } in
      let kept = note_send_kept both redundant packet.meta.size deficit in
      ap (λ (paths : List TransportPath). sent_of paths j) kept.0
      ∙ (sent_of-send_on once redundant j packet
            (omega (arith, length-send_on s.paths primary packet, second.0))
          ∙ (ap (λ (l : List Packet). l ++ copy_on redundant packet j)
                (sent_of-send_on s.paths primary j packet h)
              ∙ append_assoc (sent_of s.paths j) (copy_on primary packet j)
                  (copy_on redundant packet j)))

  send_copies_counted :
      (s : MultiPathScheduler float) (primary : ℕ) (redundant : Option ℕ) (packet : Packet)
      (deficit u_dup : F64)
      → let s' = send_copies float s primary redundant packet deficit u_dup in
        (s'.in_flight_duplicates ≡ s.in_flight_duplicates + (if is_some redundant then 1 else 0))
        × (s'.duplicate_budget ≡ s.duplicate_budget)
  unfolding send_copies
  send_copies_counted s primary none packet deficit u_dup = (omega arith, refl)
  send_copies_counted s primary (some redundant) packet deficit u_dup =
      let both = record s {
        paths = send_on (send_on s.paths primary packet) redundant packet;
        in_flight_duplicates = s.in_flight_duplicates + 1;
      } in
      let kept = note_send_kept both redundant packet.meta.size deficit in (kept.1, kept.2)

  -- The paths and the counts of a state are those of another.
  abbrev pub HasPaths : MultiPathScheduler float → MultiPathScheduler float → Type 0
  HasPaths s t =
      (s.paths ≡ t.paths)
      × (s.in_flight_duplicates ≡ t.in_flight_duplicates)
      × (s.duplicate_budget ≡ t.duplicate_budget)

  pub GoesOut-from :
      (stab : PacketStabilization float) (s t s' : MultiPathScheduler float) (packet : Packet)
      → HasPaths s t
      → GoesOut stab s s' packet
      → GoesOut stab t s' packet
  GoesOut-from stab s t s' packet kept out =
      let len : length s.paths ≡ length t.paths = ap length kept.0 in
      record {
        primary = out.primary;
        redundant = out.redundant;
        copy = out.copy;
        in_range = omega (arith, len, out.in_range);
        second = rw (← len) out.second;
        allowed =
            IsAllowed-eq out.redundant kept.1 (ap (λ b. dynamic_dup_budget float b stab) kept.2)
              out.allowed;
        same = out.same;
        logs = λ j.
            out.logs j
            ∙ ap
                (λ (paths : List TransportPath).
                  sent_of paths j ++ copies_on out.primary out.redundant out.copy j)
                kept.0;
        counted = omega (arith, out.counted, kept.1);
        budget = out.budget ∙ kept.2;
      }

  send_copies-GoesOut :
      (stab : PacketStabilization float) (s : MultiPathScheduler float) (primary : ℕ)
      (redundant : Option ℕ) (packet copy : Packet) (deficit u_dup : F64)
      → SamePacket packet copy
      → primary < length s.paths
      → IsSecond (length s.paths) primary redundant
      → IsAllowed redundant s.in_flight_duplicates
          (dynamic_dup_budget float s.duplicate_budget stab)
      → GoesOut stab s (send_copies float s primary redundant copy deficit u_dup) packet
  send_copies-GoesOut stab s primary redundant packet copy deficit u_dup same h second allowed =
      let counts = send_copies_counted s primary redundant copy deficit u_dup in
      record {
        primary = primary;
        redundant = redundant;
        copy = copy;
        in_range = h;
        second = second;
        allowed = allowed;
        same = same;
        logs = send_copies-logs s primary redundant copy deficit u_dup h second;
        counted = counts.0;
        budget = counts.1;
      }

  module _ (now : ℕ) (block : Block) (tail_penalty : F64) (fec_parity_ratio : F64)
      (parity_shards : ℕ) (target_send_rate : F64) (congestion : CongestionSignal float)
      (inflight : List Packet) (stab : PacketStabilization float) where
    pub prepare-HasPaths :
        (s : MultiPathScheduler float) (packet : Packet)
        → HasPaths
            (prepare float now block tail_penalty fec_parity_ratio parity_shards target_send_rate
              congestion inflight stab s packet)
            s
    unfolding prepare debit refill_tokens sync_queue_models_and_correlation
    prepare-HasPaths s packet = ground arith

    note_primary-HasPaths :
        (s : MultiPathScheduler float) (packet : Packet) (deficit utility : F64) (primary : ℕ)
        → HasPaths
            (note_primary float now block tail_penalty fec_parity_ratio parity_shards
              target_send_rate congestion inflight stab s packet deficit utility primary)
            s
    unfolding note_primary count_send
    note_primary-HasPaths s packet deficit utility primary =
        note_send_kept (record s { last_primary_utility = float.max utility (float.decimal 1 9) })
          primary packet.meta.size deficit

    pub send_chosen-GoesOut :
        (s : MultiPathScheduler float) (packet : Packet) (util_raw util_vec : List (ℕ × F64))
        (primary : ℕ)
        → primary < length s.paths
        → AreInRange (length s.paths) util_vec
        → GoesOut stab s
            (send_chosen float now block tail_penalty fec_parity_ratio parity_shards
              target_send_rate congestion inflight stab s packet util_raw util_vec primary)
            packet
    unfolding send_chosen candidates
    send_chosen-GoesOut s packet util_raw util_vec primary h ranges =
        let kept = note_primary-HasPaths s packet _ _ primary in
        let len = ap length kept.0 in
        GoesOut-from stab _ s _ packet kept (
          send_copies-GoesOut stab _ primary _ packet _ _ _
            (with_deadline-SamePacket now (rtt_at s.paths primary) packet) (omega (arith, len, h))
            (rw len (
              redundant-IsSecond float _ now _ tail_penalty fec_parity_ratio stab _ _
                (length s.paths) primary util_vec refl ranges))
            (redundant-IsAllowed float _ now _ tail_penalty fec_parity_ratio stab _ _))

    pub utilities-AreInRange :
        (s : MultiPathScheduler float) (packet : Packet) (momentum denom : F64)
        → AreInRange (length s.paths) (
            map (blend float momentum denom) (
              utilities float now block tail_penalty fec_parity_ratio parity_shards target_send_rate
                congestion inflight stab s packet))
    unfolding utilities
    utilities-AreInRange s packet momentum denom =
        blend-AreInRange float (length s.paths) momentum denom _
          (map-range_from-AreInRange (length s.paths) _ 0 (length s.paths) (omega arith))
