-- ===== src/Rdma/Congestion/Rates.antt =====
-- The rates of DCQCN stay in their range, whatever the flows and the clock do.
use mathlib.Core.Option.{some-injective}
use smart_nic.Base.Assoc.{Holds, lookup, insert-Holds, erase-Holds, empty-Holds}
use smart_nic.Rdma.Congestion.Flow.{
  decrease_rate, recover_rate, update_alpha, scaled_rate, rate_increment, clamp_unit, advance_flow,
  handle_cnp_received, blend, advance_time, after_increase, advance_flows, new_flow, after_alpha,
  recovery_due, get_flow_state, on_cnp,
}
use smart_nic.Rdma.Congestion.{
  Floats, DcqcnConfig, BitFields, DcqcnFlowState, CongestionControlManager, generate_cnp,
  clear_flow_state, reset, create, get_current_rate,
}
use smart_nic.Base.{
  true, false, refl, some, [], ◌∷◌, ℕ, ◌≡◌, ◌≤◌, ◌^◌, List, arith, Bool, ap, if-cases, leb, sub64,
  subst, Bool-cases, ◌==◌, inl, inr, not, Option-cases, sym, add64, ◌⊎◌, if◌then◌else◌,
}

module _ {D : Type 0} where
  -- Every comparison of what is no number is false, and a number is below two or above one.
  abbrev pub IsNumber : Floats D → D → Type 0
  IsNumber fl x = (fl.less x fl.two ≡ true) ⊎ (fl.less fl.one x ≡ true)

  abbrev pub IsBetween : Floats D → D → D → D → Type 0
  IsBetween fl low high x = (fl.less x low ≡ false) × (fl.less high x ≡ false) × IsNumber fl x

  abbrev pub InUnit : Floats D → D → Type 0
  InUnit fl x = IsBetween fl fl.zero fl.one x

  -- What is asked of the operations, each one by itself; IEEE 754 doubles keep it, since rounding is monotone and
  -- keeps 0, 1 and the integers up to 2^53. The unit interval is closed under halving, `1 - x` and products, and
  -- the sum of two of its members is a number. A factor from it leaves an integer between 0 and the integer. The
  -- cast to an integer of what lies between 0 and an integer is at most the integer.
  pub record FloatLaws (fl : Floats D) : Type 0 where
    pub zero_in : InUnit fl fl.zero
    pub one_in : InUnit fl fl.one
    pub halved : (x : D) → InUnit fl x → InUnit fl (fl.divide x fl.two)
    pub complement : (x : D) → InUnit fl x → InUnit fl (fl.minus fl.one x)
    pub product : (x y : D) → InUnit fl x → InUnit fl y → InUnit fl (fl.times x y)
    pub sum : (x y : D) → InUnit fl x → InUnit fl y → IsNumber fl (fl.plus x y)
    pub part :
        (n : ℕ) (x : D)
        → n ≤ 2 ^ 53
        → InUnit fl x
        → IsBetween fl fl.zero (fl.of_u64 n) (fl.times (fl.of_u64 n) x)
    pub truncated :
        (n : ℕ) (x : D) → n ≤ 2 ^ 53 → IsBetween fl fl.zero (fl.of_u64 n) x → fl.to_u64 x ≤ n

  -- A configuration whose numbers are within range.
  pub record IsSound (fl : Floats D) (c : DcqcnConfig D) : Type 0 where
    pub ordered : c.min_rate_mbps ≤ c.initial_rate_mbps
    pub exact : c.initial_rate_mbps ≤ 2 ^ 53
    pub gain_in : InUnit fl c.alpha_g

  pub record InRange (fl : Floats D) (c : DcqcnConfig D) (state : DcqcnFlowState D) : Type 0 where
    pub rate_low : c.min_rate_mbps ≤ state.current_rate_mbps
    pub rate_high : state.current_rate_mbps ≤ c.initial_rate_mbps
    pub target_low : c.min_rate_mbps ≤ state.target_rate_mbps
    pub target_high : state.target_rate_mbps ≤ c.initial_rate_mbps
    pub alpha_in : InUnit fl state.alpha

-- The calls that change a manager.
pub data Call : Type 0 where
  generates : ℕ → ℕ → Call
  receives : ℕ → ℕ → Call
  advances : ℕ → Call
  clears : ℕ → Call
  resets : Call

module _ {D : Type 0} (fl : Floats D) (bits : BitFields) where
  pub step : CongestionControlManager D → Call → CongestionControlManager D
  step m (generates qp now) = (generate_cnp bits m qp now).1
  step m (receives qp now) = handle_cnp_received fl m qp now
  step m (advances elapsed) = advance_time fl m elapsed
  step m (clears qp) = clear_flow_state m qp
  step m resets = reset m

  unfoldable pub run : CongestionControlManager D → List Call → CongestionControlManager D
  unfolding step
  run m [] = m
  run m (call ∷ calls) = run (step m call) calls

module _ {D : Type 0} (fl : Floats D) (laws : FloatLaws fl) (c : DcqcnConfig D)
    (v : IsSound fl c) where
  -- A part of a rate, as the decrease and the increment take it.
  times-bounded :
      (rate : ℕ) (x : D)
      → rate ≤ 2 ^ 53
      → InUnit fl x
      → fl.to_u64 (fl.times (fl.of_u64 rate) x) ≤ rate
  times-bounded rate x small h =
      laws.truncated rate (fl.times (fl.of_u64 rate) x) small (laws.part rate x small h)

  scaled_rate-bounded :
      (rate : ℕ) (alpha : D) → rate ≤ 2 ^ 53 → InUnit fl alpha → scaled_rate fl rate alpha ≤ rate
  unfolding scaled_rate
  scaled_rate-bounded rate alpha small h =
      times-bounded rate (fl.minus fl.one (fl.divide alpha fl.two)) small
        (laws.complement (fl.divide alpha fl.two) (laws.halved alpha h))

  blend-IsNumber :
      (g alpha : D) (received : Bool)
      → InUnit fl g
      → InUnit fl alpha
      → IsNumber fl (blend fl g alpha received)
  unfolding blend
  blend-IsNumber g alpha received hg ha =
      laws.sum (fl.times (fl.minus fl.one g) alpha)
        (fl.times g (if received then fl.one else fl.zero))
        (laws.product (fl.minus fl.one g) alpha (laws.complement g hg) ha)
        (laws.product g (if received then fl.one else fl.zero) hg
          (if-cases (InUnit fl) received fl.one fl.zero (λ e. laws.one_in) (λ e. laws.zero_in)))

  clamp_unit-InUnit : (x : D) → IsNumber fl x → InUnit fl (clamp_unit fl x)
  unfolding clamp_unit
  clamp_unit-InUnit x number =
      if-cases (InUnit fl) (fl.less x fl.zero) _ _ (λ e. laws.zero_in)
        (λ low.
          if-cases (InUnit fl) (fl.less fl.one x) _ _ (λ e. laws.one_in)
            (λ high. (low, high, number)))

  decrease_rate-InRange :
      (state : DcqcnFlowState D) → InRange fl c state → InRange fl c (decrease_rate fl c state)
  unfolding decrease_rate
  decrease_rate-InRange state h =
      let low =
        scaled_rate-bounded state.current_rate_mbps state.alpha
          (omega (arith, h.rate_high, v.exact)) h.alpha_in in
      let a = v.ordered in
      let b = h.rate_high in
      record {
        rate_low = omega arith;
        rate_high = omega arith;
        target_low = omega arith;
        target_high = omega arith;
        alpha_in = h.alpha_in;
      }

  recover_rate-InRange :
      (state : DcqcnFlowState D) → InRange fl c state → InRange fl c (recover_rate fl c state)
  unfolding recover_rate rate_increment
  recover_rate-InRange state h =
      let up = times-bounded c.initial_rate_mbps c.alpha_g v.exact v.gain_in in
      let a = v.ordered in let b = v.exact in ground (arith, h)

  update_alpha-InRange :
      (state : DcqcnFlowState D) (b : Bool)
      → InRange fl c state
      → InRange fl c (update_alpha fl c state b)
  unfolding update_alpha
  update_alpha-InRange state b h = record {
    rate_low = h.rate_low;
    rate_high = h.rate_high;
    target_low = h.target_low;
    target_high = h.target_high;
    alpha_in =
        clamp_unit-InUnit (blend fl c.alpha_g state.alpha b)
          (blend-IsNumber c.alpha_g state.alpha b v.gain_in h.alpha_in);
  }

  advance_flow-InRange :
      (now : ℕ) (state : DcqcnFlowState D)
      → InRange fl c state
      → InRange fl c (advance_flow fl c now state)
  unfolding advance_flow after_increase after_alpha
  advance_flow-InRange now state h =
      let grown : InRange fl c (after_increase fl c now state) =
        if-cases (InRange fl c) (recovery_due c now state) _ state
          (λ e. same_clock (recover_rate fl c state) now (recover_rate-InRange state h)) (λ e. h) in
      let raised = after_increase fl c now state in
      if-cases (InRange fl c) (leb c.alpha_update_period_us (sub64 now raised.alpha_update_time_us))
        _ raised (λ e. other_clock _ now (update_alpha-InRange raised _ grown)) (λ e. grown)
    where
      same_clock :
          (s : DcqcnFlowState D) (now : ℕ)
          → InRange fl c s
          → InRange fl c (record s { rate_increase_time_us = now })
      same_clock s now k = record {
        rate_low = k.rate_low;
        rate_high = k.rate_high;
        target_low = k.target_low;
        target_high = k.target_high;
        alpha_in = k.alpha_in;
      }

      other_clock :
          (s : DcqcnFlowState D) (now : ℕ)
          → InRange fl c s
          → InRange fl c (record s { alpha_update_time_us = now })
      other_clock s now k = record {
        rate_low = k.rate_low;
        rate_high = k.rate_high;
        target_low = k.target_low;
        target_high = k.target_high;
        alpha_in = k.alpha_in;
      }

  lookup-advance_flows :
      (now k : ℕ) (flows : List (ℕ × DcqcnFlowState D)) (increases : ℕ) (state : DcqcnFlowState D)
      → lookup k (advance_flows fl c now increases flows).0 ≡ some state
      → (old : DcqcnFlowState D) × (lookup k flows ≡ some old) × (advance_flow fl c now old ≡ state)
  unfolding advance_flows lookup
  lookup-advance_flows now k [] increases state e = ground arith
  lookup-advance_flows now k ((qp, head) ∷ later) increases state e = elim (Bool-cases (qp == k)) [
    | inl same ↦ rw same (head, refl, some-injective _ state (rw same at e))
    | inr other ↦ rw other (lookup-advance_flows now k later _ state (rw other at e))
  ]

  advance_flows-Holds :
      (now : ℕ) (flows : List (ℕ × DcqcnFlowState D)) (increases : ℕ)
      → Holds (InRange fl c) flows
      → Holds (InRange fl c) (advance_flows fl c now increases flows).0
  advance_flows-Holds now flows increases h k state e =
      let (old, found, same) = lookup-advance_flows now k flows increases state e in
      subst (InRange fl c) same (advance_flow-InRange now old (h k old found))

  new_flow-InRange : (m : CongestionControlManager D) → m.config ≡ c → InRange fl c (new_flow fl m)
  unfolding new_flow
  new_flow-InRange m same =
      let a = v.ordered in
      let o = laws.one_in in
      rw (ap (λ (k : DcqcnConfig D). k.initial_rate_mbps) same) (record {
        rate_low = a;
        rate_high = omega arith;
        target_low = a;
        target_high = omega arith;
        alpha_in = o;
      })

  -- Of a manager with the configuration.
  Bounded : CongestionControlManager D → Type 0
  Bounded m = (m.config ≡ c) × Holds (InRange fl c) m.flow_states

  get_flow_state-InRange :
      (m : CongestionControlManager D) (qp : ℕ) → Bounded m → InRange fl c (get_flow_state fl m qp)
  unfolding Bounded get_flow_state
  get_flow_state-InRange m qp h = elim (Option-cases (lookup qp m.flow_states)) [
    | inl e ↦ rw (get_flow_state, e) (new_flow-InRange m h.0)
    | inr (state, e) ↦ rw (get_flow_state, e) (h.1 qp state e)
  ]

  on_cnp-InRange :
      (now : ℕ) (state : DcqcnFlowState D)
      → InRange fl c state
      → InRange fl c (on_cnp fl c now state)
  unfolding on_cnp
  on_cnp-InRange now state h =
      let k = decrease_rate-InRange state h in
      record {
        rate_low = k.rate_low;
        rate_high = k.rate_high;
        target_low = k.target_low;
        target_high = k.target_high;
        alpha_in = k.alpha_in;
      }

  step-Bounded :
      (bits : BitFields) (m : CongestionControlManager D) (call : Call)
      → Bounded m
      → Bounded (step fl bits m call)
  unfolding step Bounded generate_cnp handle_cnp_received advance_time clear_flow_state reset
  step-Bounded bits m (generates qp now) h = ground arith
  step-Bounded bits m (receives qp now) h =
      if-cases Bounded (not m.config.enabled) m _ (λ e. h)
        (λ e. (
          h.0,
          insert-Holds (InRange fl c) qp _ m.flow_states h.1 (
              subst (λ (k : DcqcnConfig D). InRange fl c (on_cnp fl k now (get_flow_state fl m qp)))
                (sym h.0) (on_cnp-InRange now _ (get_flow_state-InRange m qp h))),
        ))
  step-Bounded bits m (advances elapsed) h =
      if-cases Bounded (not m.config.enabled) _ _ (λ e. h)
        (λ e. (
          h.0,
          subst
              (λ (k : DcqcnConfig D).
                Holds (InRange fl c)
                  (advance_flows fl k (add64 m.current_time_us elapsed) (m.stats.rate_increases)
                    m.flow_states).0)
              (sym h.0) (advance_flows-Holds _ m.flow_states _ h.1),
        ))
  step-Bounded bits m (clears qp) h = (h.0, erase-Holds (InRange fl c) qp m.flow_states h.1)
  step-Bounded bits m resets h = (h.0, empty-Holds (InRange fl c))

  run-Bounded :
      (bits : BitFields) (m : CongestionControlManager D) (calls : List Call)
      → Bounded m
      → Bounded (run fl bits m calls)
  unfolding run
  run-Bounded bits m [] h = h
  run-Bounded bits m (call ∷ calls) h =
      run-Bounded bits (step fl bits m call) calls (step-Bounded bits m call h)

-- With arithmetic that keeps the laws, and a configuration whose minimum is at most the initial rate, whose
-- initial rate is at most 2^53 and whose gain is in the unit interval: after any calls on a new manager, the
-- sending rate of every queue pair is at least the minimum and at most the initial rate.
pub run-rate_in_range :
    {D : Type 0} (fl : Floats D)
    → FloatLaws fl
    → (c : DcqcnConfig D) → IsSound fl c
    → (bits : BitFields) (calls : List Call) (qp : ℕ)
    → let rate = get_current_rate (run fl bits (create c) calls) qp in
      (c.min_rate_mbps ≤ rate) × (rate ≤ c.initial_rate_mbps)
unfolding create get_current_rate Bounded
run-rate_in_range {D} fl laws c v bits calls qp =
    let m = run fl bits (create c) calls in
    let h = run-Bounded fl laws c v bits (create c) calls (refl, empty-Holds (InRange fl c)) in
    elim (Option-cases (lookup qp m.flow_states)) [
      | inl e ↦
          rw (get_current_rate, e)
            (subst
              (λ (k : DcqcnConfig D).
                (c.min_rate_mbps ≤ k.initial_rate_mbps)
                × (k.initial_rate_mbps ≤ c.initial_rate_mbps))
              (sym h.0) (v.ordered, omega arith))
      | inr (state, e) ↦
          rw (get_current_rate, e) ((h.1 qp state e).rate_low, (h.1 qp state e).rate_high)
    ]
