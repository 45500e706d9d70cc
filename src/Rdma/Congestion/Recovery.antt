-- ===== src/Rdma/Congestion/Recovery.antt =====
-- Rate recovery of src/rocev2/congestion.cpp: the ceiling division brings a flow back to its initial rate.
use smart_nic.Rdma.Congestion.Flow.{recover_rate, rate_increment}
use smart_nic.Rdma.Congestion.{Floats, DcqcnConfig, DcqcnFlowState}
use smart_nic.Base.{
  true, false, refl, ℕ, ◌<◌, suc, ◌≡◌, ◌-◌, ◌+◌, ◌≤◌, zero, ◌^◌, ◌⊎◌, arith, inl, inr, ap, ◌∙◌,
}

module _ {D : Type 0} (fl : Floats D) (c : DcqcnConfig D) where
  -- `recover_rate`, `n` times.
  unfoldable pub recoveries : ℕ → DcqcnFlowState D → DcqcnFlowState D
  recoveries zero state = state
  recoveries (suc n) state = recoveries n (recover_rate fl c state)

  stays : (state : DcqcnFlowState D) → state.in_recovery ≡ false → recover_rate fl c state ≡ state
  unfolding recover_rate
  stays state h = ground arith

  at_rest :
      (n : ℕ) (state : DcqcnFlowState D) → state.in_recovery ≡ false → recoveries n state ≡ state
  unfolding recoveries
  at_rest zero state h = refl
  at_rest (suc n) state h = ap (recoveries n) (stays state h) ∙ at_rest n state h

  -- How far the target and the rate are from the initial rate.
  distance : DcqcnFlowState D → ℕ
  distance state =
      (c.initial_rate_mbps - state.target_rate_mbps)
      + (c.initial_rate_mbps - state.current_rate_mbps)

  -- What recovery keeps while it goes on.
  IsClimbing : DcqcnFlowState D → Type 0
  IsClimbing state =
      (state.in_recovery ≡ true)
      × (state.current_rate_mbps ≤ state.target_rate_mbps)
      × (state.target_rate_mbps ≤ c.initial_rate_mbps)

  Rested : DcqcnFlowState D → Type 0
  Rested state = (state.in_recovery ≡ false) × (state.current_rate_mbps ≡ c.initial_rate_mbps)

  module _ (some_step : 0 < rate_increment fl c) (exact : c.initial_rate_mbps ≤ 2 ^ 53)
      (small : rate_increment fl c ≤ c.initial_rate_mbps) where
    climb :
        (state : DcqcnFlowState D)
        → IsClimbing state
        → Rested (recover_rate fl c state)
          ⊎ (IsClimbing (recover_rate fl c state)
              × (distance (recover_rate fl c state) < distance state))
    unfolding IsClimbing Rested distance recover_rate
    climb state (going, below, within) = rw going (ground arith)

    climbs :
        (n : ℕ) (state : DcqcnFlowState D)
        → IsClimbing state
        → distance state < n
        → Rested (recoveries n state)
    unfolding recoveries Rested
    climbs zero state h d = absurd (omega arith)
    climbs (suc n) state h d = elim (climb state h) [
      | inl done ↦ rw (at_rest n (recover_rate fl c state) done.0) done
      | inr (on, less) ↦ climbs n (recover_rate fl c state) on (omega arith)
    ]

-- A flow in recovery, whose rate is at most its target and whose target is at most the initial rate, with an
-- initial rate of at most 2^53 and an increment from 1 to the initial rate: after more recovery steps than its target
-- and its rate together are below the initial rate, it has left recovery and sends at the initial rate.
pub recoveries_end :
    {D : Type 0} (fl : Floats D) (c : DcqcnConfig D) (n : ℕ) (state : DcqcnFlowState D)
    → 0 < rate_increment fl c
    → rate_increment fl c ≤ c.initial_rate_mbps
    → c.initial_rate_mbps ≤ 2 ^ 53
    → state.in_recovery ≡ true
    → state.current_rate_mbps ≤ state.target_rate_mbps
    → state.target_rate_mbps ≤ c.initial_rate_mbps
    → (c.initial_rate_mbps - state.target_rate_mbps)
        + (c.initial_rate_mbps - state.current_rate_mbps)
      < n
    → let state' = recoveries fl c n state in
      (state'.in_recovery ≡ false) × (state'.current_rate_mbps ≡ c.initial_rate_mbps)
unfolding IsClimbing Rested distance
recoveries_end fl c n state step small exact going below within d =
    climbs fl c step exact small n state (going, below, within) d
