-- ===== src/Rdma/Write.antt =====
-- include/nic/rocev2/rdma_write.h and src/rocev2/rdma_write.cpp: RDMA WRITE, cut into packets by the
-- requester and written to memory by the responder.
pub mod Generate
pub mod Process
pub mod Guard
pub mod Sequence
use smart_nic.Memory.Host.{write, is_ok}
use smart_nic.Rdma.MrTable.{validate_rkey}
use smart_nic.Base.Assoc.{erase}
use smart_nic.Rdma.Transfer.{HostAccess}
use smart_nic.Rdma.Wqe.{ack, AethSyndrome, RdmaCqe}
use smart_nic.Base.{
  true, false, refl, none, some, [], ℕ, List, Bool, Option, length, if◌then◌else◌, not,
}

pub record WriteMessageState : Type 0 where
  pub remote_address : ℕ
  pub rkey : ℕ
  pub total_length : ℕ
  pub bytes_written : ℕ
  pub expected_psn : ℕ
  pub in_progress : Bool
  pub immediate_data : ℕ
  pub has_immediate : Bool

pub record WriteStats : Type 0 where
  pub writes_started : ℕ
  pub writes_completed : ℕ
  pub write_packets_generated : ℕ
  pub write_packets_processed : ℕ
  pub bytes_written : ℕ
  pub rkey_errors : ℕ
  pub sequence_errors : ℕ
  pub access_errors : ℕ

-- `host_memory_` and `mr_table_` are kept apart, in `HostAccess`.
pub record WriteProcessor : Type 0 where
  pub stats : WriteStats
  pub write_states : List (ℕ × WriteMessageState)

pub record WriteResult : Type 0 where
  pub success : Bool
  pub needs_ack : Bool
  pub is_message_complete : Bool
  pub ack_psn : ℕ
  pub syndrome : AethSyndrome
  pub recv_cqe : Option RdmaCqe

abbrev pub no_stats : WriteStats
no_stats = record {
  writes_started = 0;
  writes_completed = 0;
  write_packets_generated = 0;
  write_packets_processed = 0;
  bytes_written = 0;
  rkey_errors = 0;
  sequence_errors = 0;
  access_errors = 0;
}

-- A default-constructed message state.
abbrev pub no_message : WriteMessageState
no_message = record {
  remote_address = 0;
  rkey = 0;
  total_length = 0;
  bytes_written = 0;
  expected_psn = 0;
  in_progress = false;
  immediate_data = 0;
  has_immediate = false;
}

abbrev pub no_result : WriteResult
no_result = record {
  success = false;
  needs_ack = false;
  is_message_complete = false;
  ack_psn = 0;
  syndrome = ack;
  recv_cqe = none;
}

-- The constructor.
abbrev pub create : WriteProcessor
create = record { stats = no_stats; write_states = [] }

unfoldable pub reset : WriteProcessor → WriteProcessor
reset p = record p { write_states = []; stats = no_stats }

unfoldable pub clear_write_state : WriteProcessor → ℕ → WriteProcessor
clear_write_state p qp_number = record p { write_states = erase qp_number p.write_states }

-- `write_to_remote`: the rkey is validated for the very bytes that are written.
unfoldable pub write_to_remote : HostAccess → ℕ → ℕ → ℕ → List ℕ → Bool × HostAccess
write_to_remote h address rkey pd_handle bytes =
    let (valid, table) = validate_rkey h.mr_table rkey pd_handle address (length bytes) true in
    let (done, m) = write h.host_memory address bytes in
    if not valid
    then (false, record h { mr_table = table })
    else (is_ok done, record { mr_table = table; host_memory = m })
