-- ===== src/Rdma/Reliability.antt =====
-- `ReliabilityManager` of include/nic/rocev2/congestion.h and src/rocev2/congestion.cpp: the operations that
-- wait for an acknowledgement, per queue pair. A vector is a list. The shift of `calculate_timeout` is
-- undefined in C++ from a retry count of 64 on; the model shifts everything out then.
use smart_nic.Rdma.Psn.{mask_psn}
use smart_nic.Base.Assoc.{lookup, insert, erase}
use smart_nic.Base.{
  true, false, refl, none, some, [], ℕ, Bool, List, add64, Option, ltb, ◌∷◌, ◌*◌, ◌&&◌, add32,
  if◌then◌else◌, ◌++◌, sub32, not, ◌^◌, leb, ◌%◌, sub64,
}
use smart_nic.Rdma.Wqe.{
  ack, rnr_nak, psn_seq_error, invalid_request, nak_remote_access, nak_remote_op, WqeOpcode,
  WqeStatus,
}
pub mod Nak
pub mod Cumulative
pub mod Retries

pub record ReliabilityConfig : Type 0 where
  pub max_retries : ℕ
  pub rnr_retry_count : ℕ
  pub ack_timeout_us : ℕ
  pub rnr_timeout_us : ℕ
  pub timeout_exponent : ℕ

pub record PendingAck : Type 0 where
  pub start_psn : ℕ
  pub end_psn : ℕ
  pub send_time_us : ℕ
  pub wr_id : ℕ
  pub opcode : WqeOpcode
  pub retry_count : ℕ
  pub waiting_for_ack : Bool

pub record AckResult : Type 0 where
  pub success : Bool
  pub needs_retransmit : Bool
  pub completed_wr_ids : List ℕ
  pub error_status : Option WqeStatus

pub record ReliabilityStats : Type 0 where
  pub acks_received : ℕ
  pub naks_received : ℕ
  pub retransmissions : ℕ
  pub timeouts : ℕ
  pub rnr_retries : ℕ
  pub retry_exceeded : ℕ

pub record ReliabilityManager : Type 0 where
  pub config : ReliabilityConfig
  pub stats : ReliabilityStats
  pub pending_ops : List (ℕ × List PendingAck)

abbrev pub no_stats : ReliabilityStats
no_stats = record {
  acks_received = 0;
  naks_received = 0;
  retransmissions = 0;
  timeouts = 0;
  rnr_retries = 0;
  retry_exceeded = 0;
}

abbrev pub no_result : AckResult
no_result = record {
  success = false;
  needs_retransmit = false;
  completed_wr_ids = [];
  error_status = none;
}

unfoldable pub create : ReliabilityConfig → ReliabilityManager
create c = record { config = c; stats = no_stats; pending_ops = [] }

-- `pending_ops_[qp_number]`, which the map makes when it is missing.
unfoldable pub pending_of : ReliabilityManager → ℕ → List PendingAck
unfolding lookup
pending_of m qp_number = elim (lookup qp_number m.pending_ops) [ some ops ↦ ops | none ↦ [] ]

unfoldable pub new_pending : ℕ → ℕ → ℕ → WqeOpcode → ℕ → PendingAck
new_pending start_psn end_psn wr_id opcode send_time = record {
  start_psn = start_psn;
  end_psn = end_psn;
  send_time_us = send_time;
  wr_id = wr_id;
  opcode = opcode;
  retry_count = 0;
  waiting_for_ack = true;
}

unfoldable pub add_pending : ReliabilityManager → ℕ → ℕ → ℕ → ℕ → WqeOpcode → ℕ → ReliabilityManager
unfolding new_pending pending_of insert
add_pending m qp_number start_psn end_psn wr_id opcode send_time = record m {
  pending_ops =
      insert qp_number
        (pending_of m qp_number ++ (new_pending start_psn end_psn wr_id opcode send_time ∷ []))
        m.pending_ops;
}

-- The test of `complete_up_to`: the acknowledged number is in the half of the number space from the
-- operation's last packet on.
unfoldable pub covers : ℕ → PendingAck → Bool
unfolding mask_psn
covers ack_psn op = ltb (mask_psn (sub32 ack_psn op.end_psn)) 0x800000

unfoldable pub complete_up_to : ℕ → List PendingAck → List PendingAck × List ℕ
unfolding covers
complete_up_to ack_psn [] = ([], [])
complete_up_to ack_psn (op ∷ ops) =
    let (later, completed) = complete_up_to ack_psn ops in
    if not op.waiting_for_ack
    then (op ∷ later, completed)
    else if covers ack_psn op
    then (record op { waiting_for_ack = false } ∷ later, op.wr_id ∷ completed)
    else (op ∷ later, completed)

-- The `remove_if` of `process_ack`.
unfoldable pub still_waiting : List PendingAck → List PendingAck
still_waiting [] = []
still_waiting (op ∷ ops) =
    let later = still_waiting ops in if op.waiting_for_ack then op ∷ later else later

unfoldable pub process_ack : ReliabilityManager → ℕ → ℕ → AckResult × ReliabilityManager
unfolding complete_up_to still_waiting lookup insert
process_ack m qp_number ack_psn = elim (lookup qp_number m.pending_ops) [
  | none ↦ (no_result, m)
  | some ops ↦
      let (marked, completed) = complete_up_to ack_psn ops in
      (
        record no_result { success = true; completed_wr_ids = completed },
        record m {
          stats = record (m.stats) { acks_received = add64 (m.stats.acks_received) 1 };
          pending_ops = insert qp_number (still_waiting marked) m.pending_ops;
        },
      )
]

unfoldable pub calculate_timeout : ReliabilityConfig → ℕ → ℕ
calculate_timeout c retry_count = (c.ack_timeout_us * 2 ^ retry_count) % 2 ^ 64

unfoldable pub timed_out : ReliabilityConfig → ℕ → PendingAck → Bool
unfolding calculate_timeout
timed_out c now op =
    op.waiting_for_ack && leb (calculate_timeout c op.retry_count) (sub64 now op.send_time_us)

-- What the body of the loop of `check_timeouts` does to an operation that timed out.
unfoldable pub retry_op : ReliabilityConfig → ℕ → PendingAck → PendingAck
retry_op c now op =
    let count = add32 op.retry_count 1 in
    record op {
      retry_count = count;
      send_time_us = now;
      waiting_for_ack = if ltb c.max_retries count then false else op.waiting_for_ack;
    }

-- The test `pending.retry_count > config_.max_retries`, after the count.
unfoldable pub gives_up : ReliabilityConfig → PendingAck → Bool
gives_up c op = ltb c.max_retries (add32 op.retry_count 1)

unfoldable pub count_timeout : ReliabilityConfig → PendingAck → ReliabilityStats → ReliabilityStats
unfolding gives_up
count_timeout c op stats =
    let counted = record stats { timeouts = add64 stats.timeouts 1 } in
    if gives_up c op
    then record counted { retry_exceeded = add64 stats.retry_exceeded 1 }
    else record counted { retransmissions = add64 stats.retransmissions 1 }

-- The loop of `check_timeouts`, with the counters: the operations, the sequence numbers to send again from,
-- and the counters.
unfoldable pub scan_timeouts :
    ReliabilityConfig
    → ℕ
    → ReliabilityStats
    → List PendingAck
    → List PendingAck × List ℕ × ReliabilityStats
unfolding timed_out retry_op gives_up count_timeout
scan_timeouts c now stats [] = ([], [], stats)
scan_timeouts c now stats (op ∷ ops) =
    let expired = timed_out c now op in
    let (ops', psns, stats') =
      scan_timeouts c now (if expired then count_timeout c op stats else stats) ops in
    (
      (if expired then retry_op c now op else op) ∷ ops',
      (if expired && not (gives_up c op) then op.start_psn ∷ psns else psns),
      stats',
    )

unfoldable pub check_timeouts : ReliabilityManager → ℕ → ℕ → List ℕ × ReliabilityManager
unfolding scan_timeouts lookup insert
check_timeouts m qp_number now = elim (lookup qp_number m.pending_ops) [
  | none ↦ ([], m)
  | some ops ↦
      let (ops', psns, stats) = scan_timeouts m.config now m.stats ops in
      (psns, record m { stats = stats; pending_ops = insert qp_number ops' m.pending_ops })
]

unfoldable pub reset : ReliabilityManager → ReliabilityManager
reset m = record m { pending_ops = []; stats = no_stats }

unfoldable pub clear_pending : ReliabilityManager → ℕ → ReliabilityManager
unfolding erase
clear_pending m qp_number = record m { pending_ops = erase qp_number m.pending_ops }
