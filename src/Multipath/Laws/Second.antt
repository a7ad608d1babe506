-- ===== src/Multipath/Laws/Second.antt =====
-- The path of the second copy: `redundant_path` of Multipath.Duplicate.
use sc_transport.Base.{ℕ, ◌<◌, ◌≡◌, ◌≢◌, refl, sym, ◌∙◌, arith, Option, none, some, List}
use sc_transport.Base.Float.{Float}
use sc_transport.Packet.{Packet}
use sc_transport.Multipath.Pick.{sort_by_utility}
use sc_transport.Multipath.Scheduler.{PacketStabilization, MultiPathScheduler}
use sc_transport.Multipath.Duplicate.{find_other, dynamic_dup_budget, Candidates, redundant_path}
use sc_transport.Multipath.Laws.{AreInRange, find_other_lem, sort_by_utility-AreInRange}

-- A second path is one of `n`, and not the first.
abbrev pub IsSecond : ℕ → ℕ → Option ℕ → Type 0
IsSecond n primary none = Unit
IsSecond n primary (some redundant) = (redundant < n) × (redundant ≢ primary)

-- A second copy is allowed only where fewer copies are in flight than the budget.
abbrev pub IsAllowed : Option ℕ → ℕ → ℕ → Type 0
IsAllowed none in_flight budget = Unit
IsAllowed (some redundant) in_flight budget = in_flight < budget

pub IsAllowed-eq : (o : Option ℕ) {a b c d : ℕ} → a ≡ c → b ≡ d → IsAllowed o a b → IsAllowed o c d
IsAllowed-eq none p q h = tt
IsAllowed-eq (some r) p q h = omega arith

module _ (float : Float) where
  open float use {F64}

  IsAllowed-of :
      (in_flight budget : ℕ) (o : Option ℕ)
      → ((r : ℕ) → o ≡ some r → in_flight < budget)
      → IsAllowed o in_flight budget
  IsAllowed-of in_flight budget none h = tt
  IsAllowed-of in_flight budget (some r) h = h r refl

  IsSecond-of :
      (n primary : ℕ) (o : Option ℕ)
      → ((r : ℕ) → o ≡ some r → (r < n) × (r ≢ primary))
      → IsSecond n primary o
  IsSecond-of n primary none h = tt
  IsSecond-of n primary (some r) h = h r refl

  pub redundant_path_lem :
      (s : MultiPathScheduler float) (now : ℕ) (packet : Packet) (tail_penalty : F64)
      (fec_parity_ratio : F64) (stab : PacketStabilization float) (limit : ℕ) (c : Candidates float)
      (r : ℕ)
      → redundant_path float s now packet tail_penalty fec_parity_ratio stab limit c ≡ some r
      → (c.secondary_idx ≡ some r)
        × (s.in_flight_duplicates < dynamic_dup_budget float s.duplicate_budget stab)
  unfolding redundant_path
  redundant_path_lem s now packet tail_penalty fec_parity_ratio stab limit c r h = ground arith

  pub redundant-IsSecond :
      (s : MultiPathScheduler float) (now : ℕ) (packet : Packet) (tail_penalty : F64)
      (fec_parity_ratio : F64) (stab : PacketStabilization float) (limit : ℕ) (c : Candidates float)
      (n primary : ℕ) (util_vec : List (ℕ × F64))
      → c.secondary_idx ≡ find_other (sort_by_utility float util_vec) primary
      → AreInRange n util_vec
      → IsSecond n primary
          (redundant_path float s now packet tail_penalty fec_parity_ratio stab limit c)
  redundant-IsSecond s now packet tail_penalty fec_parity_ratio stab limit c n primary util_vec e
        h =
      IsSecond-of n primary
        (redundant_path float s now packet tail_penalty fec_parity_ratio stab limit c)
        λ r out.
          find_other_lem n (sort_by_utility float util_vec) primary r
            (sort_by_utility-AreInRange float n util_vec h)
            (sym e
              ∙ (redundant_path_lem s now packet tail_penalty fec_parity_ratio stab limit c r
                  out).0)

  pub redundant-IsAllowed :
      (s : MultiPathScheduler float) (now : ℕ) (packet : Packet) (tail_penalty : F64)
      (fec_parity_ratio : F64) (stab : PacketStabilization float) (limit : ℕ) (c : Candidates float)
      → IsAllowed
          (redundant_path float s now packet tail_penalty fec_parity_ratio stab limit c)
          s.in_flight_duplicates
          (dynamic_dup_budget float s.duplicate_budget stab)
  redundant-IsAllowed s now packet tail_penalty fec_parity_ratio stab limit c =
      IsAllowed-of s.in_flight_duplicates (dynamic_dup_budget float s.duplicate_budget stab)
        (redundant_path float s now packet tail_penalty fec_parity_ratio stab limit c)
        λ r out.
          (redundant_path_lem s now packet tail_penalty fec_parity_ratio stab limit c r out).1
