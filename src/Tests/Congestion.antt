-- ===== src/Tests/Congestion.antt =====
-- Congestion control in fixed point, with 8 bits behind the point, and a manager of pending operations.
use smart_nic.Rdma.Congestion.Notify.{generate_cnp_once}
use smart_nic.Rdma.Psn.{advance_psn}
use smart_nic.Rdma.Reliability.Nak.{process_nak}
use smart_nic.Base.Assoc.{lookup, insert}
use smart_nic.Rdma.Congestion.Recovery.{recoveries, recoveries_end}
use smart_nic.Rdma.Congestion.Flow.{rate_increment}
use smart_nic.Rdma.Reliability.Cumulative.{span, Message, posted, process_ack_cumulative}
use smart_nic.Rdma.Reliability.{
  ReliabilityConfig, add_pending, ReliabilityManager, check_timeouts, process_ack, pending_of,
}
use smart_nic.Rdma.Congestion.{
  Floats, DcqcnConfig, get_current_rate, generate_cnp, DcqcnFlowState, is_rate_limited,
}
use native.Mathlib.Nat.{mul-le-mul_left}
use smart_nic.Base.{
  true, false, refl, none, some, [], ◌∷◌, ℕ, List, ◌+◌, ltb, ◌≤◌, arith, ◌-◌, ◌≡◌, ◌*◌, ◌/◌, ◌≢◌,
  inl, inr, Bool-cases,
}
use smart_nic.Rdma.Congestion.Rates.{
  InUnit, IsNumber, receives, advances, IsSound, FloatLaws, run-rate_in_range,
}
use smart_nic.Rdma.Reliability.Retries.{adds, naks, checks, AllCapped, run-AllCapped}
use smart_nic.Rdma.Reliability.Retries
use smart_nic.Rdma.Congestion.Rates
use smart_nic.Rdma.Congestion
use smart_nic.Rdma.Reliability
use smart_nic.Rdma.Wqe
use smart_nic.Tests.BitFields.{bit_fields}

abbrev pub fixed : Floats ℕ
fixed = record {
  zero = 0;
  one = 256;
  two = 512;
  plus = λ a b. a + b;
  minus = λ a b. a - b;
  times = λ a b. a * b / 256;
  divide = λ a b. a * 256 / b;
  less = ltb;
  of_u64 = λ n. n * 256;
  to_u64 = λ a. a / 256;
}

below_one : (a : ℕ) → ltb 256 a ≡ false → a ≤ 256
below_one a h = ground arith

in_unit : (a : ℕ) → a ≤ 256 → InUnit fixed a
in_unit a h = (ground arith, ground arith, inl (ground arith))

any_number : (a : ℕ) → IsNumber fixed a
any_number a = elim (Bool-cases (ltb a 512)) [ inl e ↦ inl e | inr e ↦ inr (ground arith) ]

fixed_laws : FloatLaws fixed
fixed_laws = record {
  zero_in = in_unit 0 (omega arith);
  one_in = in_unit 256 (omega arith);
  halved = λ x h. let k = below_one x h.1 in in_unit (x * 256 / 512) (omega arith);
  complement = λ x h. in_unit (256 - x) (omega arith);
  product = λ x y h k.
      let below : x * y ≤ x * 256 = mul-le-mul_left x (below_one y k.1) in
      let one = below_one x h.1 in in_unit (x * y / 256) (omega arith);
  sum = λ x y h k. any_number (x + y);
  part = λ n x small h.
      let below : n * 256 * x ≤ n * 256 * 256 = mul-le-mul_left (n * 256) (below_one x h.1) in
      (ground arith, ground arith, any_number (n * 256 * x / 256));
  truncated = λ n x small h. let top = h.1 in ground arith;
}

abbrev pub config : DcqcnConfig ℕ
config = record {
  initial_rate_mbps = 100000;
  min_rate_mbps = 10;
  alpha_g = 1;
  rate_increase_period_us = 50;
  alpha_update_period_us = 55;
  cnp_timer_us = 50;
  enabled = true;
}

abbrev sound : IsSound fixed config
sound = record { ordered = omega arith; exact = omega arith; gain_in = (refl, refl, inl refl) }

run-rate_in_range_example :
    let rate =
      get_current_rate
        (Rates.run fixed bit_fields (Congestion.create config) (receives 5 0 ∷ advances 60 ∷ []))
        5 in
    (10 ≤ rate) × (rate ≤ 100000)
run-rate_in_range_example =
    run-rate_in_range fixed fixed_laws config sound bit_fields (receives 5 0 ∷ advances 60 ∷ []) 5

generate_cnp_once_example :
    let m = (generate_cnp bit_fields (Congestion.create config) 5 100).1 in
    (generate_cnp bit_fields m 5 120 ≡ (none, m))
    × ((other time : ℕ)
        → other ≢ 5
        → is_rate_limited m other time ≡ is_rate_limited (Congestion.create config) other time)
unfolding generate_cnp is_rate_limited lookup Congestion.create
generate_cnp_once_example =
    generate_cnp_once bit_fields (Congestion.create config) 5 100 120 refl (omega arith)

-- A flow at half the initial rate.
abbrev slowed : DcqcnFlowState ℕ
slowed = record {
  current_rate_mbps = 50000;
  target_rate_mbps = 50000;
  alpha = 256;
  last_cnp_time_us = 0;
  rate_increase_time_us = 0;
  alpha_update_time_us = 0;
  cnp_count = 1;
  in_recovery = true;
}

recoveries_end_example :
    let state = recoveries fixed config 100001 slowed in
    (state.in_recovery ≡ false) × (state.current_rate_mbps ≡ 100000)
unfolding rate_increment
recoveries_end_example =
    recoveries_end fixed config 100001 slowed (omega arith) (omega arith) (omega arith) refl
      (omega arith) (omega arith) (omega arith)

abbrev pub patience : ReliabilityConfig
patience = record {
  max_retries = 2;
  rnr_retry_count = 2;
  ack_timeout_us = 100;
  rnr_timeout_us = 200;
  timeout_exponent = 14;
}

abbrev retried : List Retries.Call
retried =
    adds 5 10 12 1 Wqe.WqeOpcode.send 0
    ∷ checks 5 1000
    ∷ naks 5 11 Wqe.AethSyndrome.psn_seq_error
    ∷ []

run-AllCapped_example :
    AllCapped patience (pending_of (Retries.run (Reliability.create patience) retried) 5)
unfolding Retries.run Retries.step Reliability.create add_pending check_timeouts process_nak
    pending_of lookup insert
run-AllCapped_example =
    run-AllCapped patience retried 5
      (pending_of (Retries.run (Reliability.create patience) retried) 5) refl

abbrev message : ℕ → ℕ → Message
message packets wr_id = record { packets = packets; wr_id = wr_id; opcode = Wqe.WqeOpcode.send }

-- Three messages, of which the numbers of the second wrap.
abbrev waiting : ReliabilityManager
waiting = record (Reliability.create patience) {
  pending_ops = (5, posted 0xfffffe (message 1 7 ∷ message 3 8 ∷ message 2 9 ∷ [])) ∷ [];
}

process_ack_cumulative_example :
    let (result, m) = process_ack waiting 5 (advance_psn 0xfffffe 4) in
    (result.success ≡ true)
    × (result.completed_wr_ids ≡ 7 ∷ 8 ∷ [])
    × (lookup 5 m.pending_ops
        ≡ some (
            posted
              (advance_psn 0xfffffe (span (message 1 7 ∷ message 3 8 ∷ [])))
              (message 2 9 ∷ [])))
    × ((other : ℕ) → other ≢ 5 → lookup other m.pending_ops ≡ lookup other waiting.pending_ops)
unfolding Reliability.create span lookup
process_ack_cumulative_example =
    process_ack_cumulative waiting 5 0xfffffe 4 (message 1 7 ∷ message 3 8 ∷ []) (message 2 9 ∷ [])
      (omega arith) (omega arith) (omega arith, (omega arith, (omega arith, tt))) (omega arith)
      (omega arith) (omega arith) refl
