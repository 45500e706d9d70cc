-- ===== src/Rdma/QueuePair.antt =====
-- include/nic/rocev2/queue_pair.h and src/rocev2/queue_pair.cpp: one RDMA queue pair. A deque is a
-- list, its front first. Traces are left out.
pub mod Work
pub mod Reliable
pub mod Run
use smart_nic.Rdma.Wqe.{
  QpType, QpState, reset_state, init, rtr, rts, sqd, sq_err, error, SendWqe, RecvWqe,
}
use smart_nic.Base.{ℕ, Bool, true, false, Option, List, [], ◌∷◌}

pub record RdmaQpConfig : Type 0 where
  pub type : QpType
  pub send_queue_depth : ℕ
  pub recv_queue_depth : ℕ
  pub max_send_sge : ℕ
  pub max_recv_sge : ℕ
  pub pd_handle : ℕ
  pub send_cq_number : ℕ
  pub recv_cq_number : ℕ
  pub max_inline_data : ℕ
  pub retry_count : ℕ
  pub rnr_retry_count : ℕ
  pub timeout : ℕ
  pub min_rnr_timer : ℕ

-- `initial_psn` and `expected_psn` are never read in the source.
pub record RdmaQpModifyParams : Type 0 where
  pub target_state : Option QpState
  pub dest_qp_number : Option ℕ
  pub dest_ip : Option (List ℕ)
  pub dest_port : Option ℕ
  pub sq_psn : Option ℕ
  pub rq_psn : Option ℕ
  pub path_mtu : Option ℕ

pub record PendingOperation : Type 0 where
  pub wqe : SendWqe
  pub psn : ℕ
  pub num_packets : ℕ
  pub timestamp_us : ℕ
  pub retry_count : ℕ

pub record RdmaQpStats : Type 0 where
  pub send_wqes_posted : ℕ
  pub recv_wqes_posted : ℕ
  pub send_completions : ℕ
  pub recv_completions : ℕ
  pub packets_sent : ℕ
  pub packets_received : ℕ
  pub bytes_sent : ℕ
  pub bytes_received : ℕ
  pub retransmits : ℕ
  pub rnr_naks_received : ℕ
  pub sequence_errors : ℕ
  pub local_errors : ℕ
  pub remote_errors : ℕ

pub record RdmaQueuePair : Type 0 where
  pub qp_number : ℕ
  pub config : RdmaQpConfig
  pub state : QpState
  pub dest_qp_number : ℕ
  pub dest_ip : List ℕ
  pub dest_port : ℕ
  pub path_mtu : ℕ
  pub sq_psn : ℕ
  pub rq_psn : ℕ
  pub last_acked_psn : ℕ
  pub send_queue : List SendWqe
  pub recv_queue : List RecvWqe
  pub pending_operations : List PendingOperation
  pub current_time_us : ℕ
  pub stats : RdmaQpStats

abbrev pub no_stats : RdmaQpStats
no_stats = record {
  send_wqes_posted = 0;
  recv_wqes_posted = 0;
  send_completions = 0;
  recv_completions = 0;
  packets_sent = 0;
  packets_received = 0;
  bytes_sent = 0;
  bytes_received = 0;
  retransmits = 0;
  rnr_naks_received = 0;
  sequence_errors = 0;
  local_errors = 0;
  remote_errors = 0;
}

abbrev pub roce_udp_port : ℕ
roce_udp_port = 4791

-- The constructor; the initial path MTU code 3 is not restored by `reset`.
unfoldable pub create : ℕ → RdmaQpConfig → RdmaQueuePair
create qp_number config = record {
  qp_number = qp_number;
  config = config;
  state = reset_state;
  dest_qp_number = 0;
  dest_ip = 0 ∷ 0 ∷ 0 ∷ 0 ∷ [];
  dest_port = roce_udp_port;
  path_mtu = 3;
  sq_psn = 0;
  rq_psn = 0;
  last_acked_psn = 0;
  send_queue = [];
  recv_queue = [];
  pending_operations = [];
  current_time_us = 0;
  stats = no_stats;
}

unfoldable pub is_valid_transition : QpState → QpState → Bool
is_valid_transition reset_state to = elim to [ init ↦ true | reset_state ↦ true | _ ↦ false ]
is_valid_transition init to = elim to [ rtr ↦ true | reset_state ↦ true | error ↦ true | _ ↦ false ]
is_valid_transition rtr to = elim to [ rts ↦ true | reset_state ↦ true | error ↦ true | _ ↦ false ]
is_valid_transition rts to = elim to [
  | sqd ↦ true
  | reset_state ↦ true
  | error ↦ true
  | sq_err ↦ true
  | _ ↦ false
]
is_valid_transition sqd to = elim to [ rts ↦ true | reset_state ↦ true | error ↦ true | _ ↦ false ]
is_valid_transition sq_err to = elim to [ reset_state ↦ true | error ↦ true | _ ↦ false ]
is_valid_transition error to = elim to [ reset_state ↦ true | _ ↦ false ]

unfoldable pub reset : RdmaQueuePair → RdmaQueuePair
reset q = record q {
  state = reset_state;
  dest_qp_number = 0;
  dest_ip = 0 ∷ 0 ∷ 0 ∷ 0 ∷ [];
  dest_port = roce_udp_port;
  sq_psn = 0;
  rq_psn = 0;
  last_acked_psn = 0;
  send_queue = [];
  recv_queue = [];
  pending_operations = [];
  current_time_us = 0;
  stats = no_stats;
}
