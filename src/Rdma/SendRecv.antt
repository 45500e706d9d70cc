-- ===== src/Rdma/SendRecv.antt =====
-- include/nic/rocev2/send_recv.h and src/rocev2/send_recv.cpp: SEND messages, cut into packets by the
-- sender and put together by the receiver.
use smart_nic.Base.Assoc.{erase}
use smart_nic.Rdma.Wqe.{AethSyndrome, ack, RdmaCqe}
use smart_nic.Memory.Dma.{SglEntry}
use smart_nic.Base.{ℕ, List, Bool, [], false, Option, none}
pub mod Generate
pub mod Process
pub mod Segments
pub mod Sequence
pub mod Steps
pub mod Delivery
pub mod Message
pub mod Packets

pub record RecvMessageState : Type 0 where
  pub wr_id : ℕ
  pub bytes_received : ℕ
  pub expected_psn : ℕ
  pub sgl : List SglEntry
  pub current_sge_idx : ℕ
  pub sge_offset : ℕ
  pub in_progress : Bool
  pub immediate_data : ℕ
  pub has_immediate : Bool

pub record SendRecvStats : Type 0 where
  pub sends_started : ℕ
  pub sends_completed : ℕ
  pub recvs_completed : ℕ
  pub send_packets_generated : ℕ
  pub recv_packets_processed : ℕ
  pub rnr_naks_sent : ℕ
  pub sequence_errors : ℕ
  pub bytes_sent : ℕ
  pub bytes_received : ℕ

-- `host_memory_` and `mr_table_` are kept apart, in `HostAccess`.
pub record SendRecvProcessor : Type 0 where
  pub stats : SendRecvStats
  pub recv_states : List (ℕ × RecvMessageState)

pub record RecvResult : Type 0 where
  pub success : Bool
  pub needs_ack : Bool
  pub is_message_complete : Bool
  pub ack_psn : ℕ
  pub syndrome : AethSyndrome
  pub cqe : Option RdmaCqe

abbrev pub no_stats : SendRecvStats
no_stats = record {
  sends_started = 0;
  sends_completed = 0;
  recvs_completed = 0;
  send_packets_generated = 0;
  recv_packets_processed = 0;
  rnr_naks_sent = 0;
  sequence_errors = 0;
  bytes_sent = 0;
  bytes_received = 0;
}

-- A default-constructed receiver state.
abbrev pub no_message : RecvMessageState
no_message = record {
  wr_id = 0;
  bytes_received = 0;
  expected_psn = 0;
  sgl = [];
  current_sge_idx = 0;
  sge_offset = 0;
  in_progress = false;
  immediate_data = 0;
  has_immediate = false;
}

abbrev pub no_result : RecvResult
no_result = record {
  success = false;
  needs_ack = false;
  is_message_complete = false;
  ack_psn = 0;
  syndrome = ack;
  cqe = none;
}

-- The constructor.
abbrev pub create : SendRecvProcessor
create = record { stats = no_stats; recv_states = [] }

unfoldable pub reset : SendRecvProcessor → SendRecvProcessor
reset p = record p { recv_states = []; stats = no_stats }

unfoldable pub clear_recv_state : SendRecvProcessor → ℕ → SendRecvProcessor
clear_recv_state p qp_number = record p { recv_states = erase qp_number p.recv_states }
