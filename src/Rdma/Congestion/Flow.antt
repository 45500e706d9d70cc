-- ===== src/Rdma/Congestion/Flow.antt =====
-- The flows of `CongestionControlManager` of src/rocev2/congestion.cpp: what the notifications and the clock do
-- to the rates.
use smart_nic.Base.Assoc.{lookup, insert}
use smart_nic.Rdma.Congestion.{Floats, CongestionControlManager, DcqcnConfig, DcqcnFlowState}
use smart_nic.Base.{
  true, false, none, some, [], ◌∷◌, ℕ, Bool, if◌then◌else◌, List, add64, max, min, add32, ◌&&◌, leb,
  not, ◌/◌, sub64, ltb,
}

module _ {D : Type 0} where
  -- The first timer of the loop of `advance_time`.
  unfoldable pub recovery_due : DcqcnConfig D → ℕ → DcqcnFlowState D → Bool
  recovery_due c now state =
      state.in_recovery && leb c.rate_increase_period_us (sub64 now state.rate_increase_time_us)

module _ {D : Type 0} (fl : Floats D) where
  unfoldable pub new_flow : CongestionControlManager D → DcqcnFlowState D
  new_flow m = record {
    current_rate_mbps = m.config.initial_rate_mbps;
    target_rate_mbps = m.config.initial_rate_mbps;
    alpha = fl.one;
    last_cnp_time_us = 0;
    rate_increase_time_us = m.current_time_us;
    alpha_update_time_us = m.current_time_us;
    cnp_count = 0;
    in_recovery = false;
  }

  -- The state, which is stored when the map has none; `handle_cnp_received` stores it with its changes.
  unfoldable pub get_flow_state : CongestionControlManager D → ℕ → DcqcnFlowState D
  unfolding lookup new_flow
  get_flow_state m qp_number = elim (lookup qp_number m.flow_states) [
    | some state ↦ state
    | none ↦ new_flow m
  ]

  unfoldable pub scaled_rate : ℕ → D → ℕ
  scaled_rate rate alpha =
      fl.to_u64 (fl.times (fl.of_u64 rate) (fl.minus fl.one (fl.divide alpha fl.two)))

  unfoldable pub decrease_rate : DcqcnConfig D → DcqcnFlowState D → DcqcnFlowState D
  unfolding scaled_rate
  decrease_rate c state =
      let rate = max c.min_rate_mbps (scaled_rate state.current_rate_mbps state.alpha) in
      record state { current_rate_mbps = rate; target_rate_mbps = rate }

  unfoldable pub rate_increment : DcqcnConfig D → ℕ
  rate_increment c = fl.to_u64 (fl.times (fl.of_u64 c.initial_rate_mbps) c.alpha_g)

  unfoldable pub recover_rate : DcqcnConfig D → DcqcnFlowState D → DcqcnFlowState D
  unfolding rate_increment
  recover_rate c state =
      let target = min c.initial_rate_mbps (add64 state.target_rate_mbps (rate_increment c)) in
      let rate = add64 (add64 state.current_rate_mbps target) 1 / 2 in
      if not state.in_recovery
      then state
      else if leb c.initial_rate_mbps rate
      then record state {
        target_rate_mbps = target;
        in_recovery = false;
        current_rate_mbps = c.initial_rate_mbps;
      }
      else record state { target_rate_mbps = target; current_rate_mbps = rate }

  -- `std::clamp(x, 0.0, 1.0)`
  unfoldable pub clamp_unit : D → D
  clamp_unit x = if fl.less x fl.zero then fl.zero else if fl.less fl.one x then fl.one else x

  unfoldable pub blend : D → D → Bool → D
  blend g alpha cnp_received =
      fl.plus (fl.times (fl.minus fl.one g) alpha)
        (fl.times g (if cnp_received then fl.one else fl.zero))

  unfoldable pub update_alpha : DcqcnConfig D → DcqcnFlowState D → Bool → DcqcnFlowState D
  unfolding clamp_unit blend
  update_alpha c state cnp_received = record state {
    alpha = clamp_unit (blend c.alpha_g state.alpha cnp_received);
  }

  unfoldable pub on_cnp : DcqcnConfig D → ℕ → DcqcnFlowState D → DcqcnFlowState D
  unfolding decrease_rate
  on_cnp c now state = record (decrease_rate c state) {
    last_cnp_time_us = now;
    in_recovery = true;
    cnp_count = add32 state.cnp_count 1;
  }

  unfoldable pub handle_cnp_received :
      CongestionControlManager D → ℕ → ℕ → CongestionControlManager D
  unfolding get_flow_state on_cnp insert
  handle_cnp_received m qp_number now = if not m.config.enabled then m else record m {
    flow_states = insert qp_number (on_cnp m.config now (get_flow_state m qp_number)) m.flow_states;
    stats = record (m.stats) {
      cnps_received = add64 (m.stats.cnps_received) 1;
      rate_decreases = add64 (m.stats.rate_decreases) 1;
    };
  }

  unfoldable pub after_increase : DcqcnConfig D → ℕ → DcqcnFlowState D → DcqcnFlowState D
  unfolding recovery_due recover_rate
  after_increase c now state =
      if recovery_due c now state
      then record (recover_rate c state) { rate_increase_time_us = now }
      else state

  -- The second timer.
  unfoldable pub after_alpha : DcqcnConfig D → ℕ → DcqcnFlowState D → DcqcnFlowState D
  unfolding update_alpha
  after_alpha c now state =
      if leb c.alpha_update_period_us (sub64 now state.alpha_update_time_us)
      then record (update_alpha c state
          (ltb (sub64 now state.last_cnp_time_us) c.alpha_update_period_us)) {
            alpha_update_time_us = now;
          }
      else state

  unfoldable pub advance_flow : DcqcnConfig D → ℕ → DcqcnFlowState D → DcqcnFlowState D
  unfolding after_increase after_alpha
  advance_flow c now state = after_alpha c now (after_increase c now state)

  -- The loop over the flows, with the count of the increases.
  unfoldable pub advance_flows :
      DcqcnConfig D → ℕ → ℕ → List (ℕ × DcqcnFlowState D) → List (ℕ × DcqcnFlowState D) × ℕ
  unfolding advance_flow
  advance_flows c now increases [] = ([], increases)
  advance_flows c now increases ((qp_number, state) ∷ later) =
      let (later', total) =
        advance_flows c now (if recovery_due c now state then add64 increases 1 else increases)
          later in
      ((qp_number, advance_flow c now state) ∷ later', total)

  unfoldable pub advance_time : CongestionControlManager D → ℕ → CongestionControlManager D
  unfolding advance_flows
  advance_time m elapsed =
      let now = add64 m.current_time_us elapsed in
      let (flows, increases) = advance_flows m.config now (m.stats.rate_increases) m.flow_states in
      if not m.config.enabled then record m { current_time_us = now } else record m {
        current_time_us = now;
        flow_states = flows;
        stats = record (m.stats) { rate_increases = increases };
      }
