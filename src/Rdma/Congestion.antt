-- ===== src/Rdma/Congestion.antt =====
-- `CongestionControlManager` of include/nic/rocev2/congestion.h and src/rocev2/congestion.cpp: DCQCN, with a
-- rate for each flow. Its `double` arithmetic is a parameter, `Floats`, over a type `D` of numbers. The map of
-- the flows is a list; its order is of no consequence.
use smart_nic.Rdma.BitFields.{BitFields}
use smart_nic.Base.Assoc.{erase, lookup, insert}
use smart_nic.Rdma.Packet.Builder.{
  build, set_opcode, set_dest_qp, set_psn, set_ack_request, set_becn, new_builder,
}
use smart_nic.Base.{
  true, false, refl, none, some, [], ◌∷◌, Bool, ℕ, List, ltb, sub64, Option, if◌then◌else◌, not,
  add64, ◌++◌, replicate,
}
use smart_nic.Rdma.Opcode.{cnp}
pub mod Flow
pub mod Rates
pub mod Recovery
pub mod Notify

-- The operations on `double` that the source uses, and the casts from and to 64-bit integers.
pub record Floats (D : Type 0) : Type 0 where
  pub zero : D
  pub one : D
  pub two : D
  pub plus : D → D → D
  pub minus : D → D → D
  pub times : D → D → D
  pub divide : D → D → D
  pub less : D → D → Bool
  pub of_u64 : ℕ → D
  pub to_u64 : D → ℕ

pub data EcnCodepoint : Type 0 where
  non_ect ect0 ect1 ce : EcnCodepoint

-- `beta` is never read in the source.
pub record DcqcnConfig (D : Type 0) : Type 0 where
  pub initial_rate_mbps : ℕ
  pub min_rate_mbps : ℕ
  pub alpha_g : D
  pub rate_increase_period_us : ℕ
  pub alpha_update_period_us : ℕ
  pub cnp_timer_us : ℕ
  pub enabled : Bool

pub record DcqcnFlowState (D : Type 0) : Type 0 where
  pub current_rate_mbps : ℕ
  pub target_rate_mbps : ℕ
  pub alpha : D
  pub last_cnp_time_us : ℕ
  pub rate_increase_time_us : ℕ
  pub alpha_update_time_us : ℕ
  pub cnp_count : ℕ
  pub in_recovery : Bool

pub record CongestionStats : Type 0 where
  pub cnps_generated : ℕ
  pub cnps_received : ℕ
  pub ecn_marks_detected : ℕ
  pub rate_decreases : ℕ
  pub rate_increases : ℕ

pub record CongestionControlManager (D : Type 0) : Type 0 where
  pub config : DcqcnConfig D
  pub stats : CongestionStats
  pub current_time_us : ℕ
  pub flow_states : List (ℕ × DcqcnFlowState D)
  pub cnp_timers : List (ℕ × ℕ)

abbrev pub no_stats : CongestionStats
no_stats = record {
  cnps_generated = 0;
  cnps_received = 0;
  ecn_marks_detected = 0;
  rate_decreases = 0;
  rate_increases = 0;
}

unfoldable pub is_congestion_marked : EcnCodepoint → Bool
is_congestion_marked ce = true
is_congestion_marked _ = false

-- The notification: a BTH and its checksum, and 16 reserved bytes behind them.
unfoldable pub cnp_packet : BitFields → ℕ → List ℕ
unfolding build set_opcode set_dest_qp set_psn set_ack_request set_becn new_builder
cnp_packet bits dest_qp =
    build bits (
      set_becn true
        (set_ack_request false (set_psn 0 (set_dest_qp dest_qp (set_opcode cnp new_builder)))))
    ++ replicate 16 0

module _ {D : Type 0} where
  unfoldable pub create : DcqcnConfig D → CongestionControlManager D
  create c = record {
    config = c;
    stats = no_stats;
    current_time_us = 0;
    flow_states = [];
    cnp_timers = [];
  }

  unfoldable pub reset : CongestionControlManager D → CongestionControlManager D
  reset m = record m { flow_states = []; cnp_timers = []; stats = no_stats; current_time_us = 0 }

  unfoldable pub clear_flow_state : CongestionControlManager D → ℕ → CongestionControlManager D
  unfolding erase
  clear_flow_state m qp_number = record m {
    flow_states = erase qp_number m.flow_states;
    cnp_timers = erase qp_number m.cnp_timers;
  }

  unfoldable pub get_current_rate : CongestionControlManager D → ℕ → ℕ
  unfolding lookup
  get_current_rate m qp_number = elim (lookup qp_number m.flow_states) [
    | some state ↦ state.current_rate_mbps
    | none ↦ m.config.initial_rate_mbps
  ]

  -- The guard of `generate_cnp` on the timer of the flow.
  unfoldable pub is_rate_limited : CongestionControlManager D → ℕ → ℕ → Bool
  unfolding lookup
  is_rate_limited m dest_qp now = elim (lookup dest_qp m.cnp_timers) [
    | some last ↦ ltb (sub64 now last) m.config.cnp_timer_us
    | none ↦ false
  ]

  unfoldable pub generate_cnp :
      BitFields → CongestionControlManager D → ℕ → ℕ → Option (List ℕ) × CongestionControlManager D
  unfolding is_rate_limited cnp_packet insert
  generate_cnp bits m dest_qp now =
      if not m.config.enabled
      then (none, m)
      else if is_rate_limited m dest_qp now
      then (none, m)
      else (
        some (cnp_packet bits dest_qp),
        record m {
          cnp_timers = insert dest_qp now m.cnp_timers;
          stats = record (m.stats) {
            cnps_generated = add64 (m.stats.cnps_generated) 1;
            ecn_marks_detected = add64 (m.stats.ecn_marks_detected) 1;
          };
        },
      )
