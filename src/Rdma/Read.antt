-- ===== src/Rdma/Read.antt =====
-- include/nic/rocev2/rdma_read.h and src/rocev2/rdma_read.cpp: RDMA READ, answered by the responder and
-- put into the requester's memory.
use smart_nic.Memory.Host.{is_ok}
use smart_nic.Rdma.MrTable.{validate_rkey}
use smart_nic.Base.Assoc.{erase}
use smart_nic.Rdma.Wqe.{AethSyndrome, RdmaCqe}
use smart_nic.Memory.Dma.{SglEntry}
use smart_nic.Rdma.Transfer.{HostAccess}
use smart_nic.Base.{
  true, false, refl, none, some, [], ℕ, List, Bool, Option, replicate, if◌then◌else◌, not,
}
pub mod Respond
pub mod Request
pub mod Guard

-- `local_address` is set and never read.
pub record ReadRequestState : Type 0 where
  pub wr_id : ℕ
  pub local_address : ℕ
  pub local_lkey : ℕ
  pub total_length : ℕ
  pub bytes_received : ℕ
  pub expected_psn : ℕ
  pub start_psn : ℕ
  pub sgl : List SglEntry
  pub current_sge_idx : ℕ
  pub sge_offset : ℕ
  pub in_progress : Bool

pub record ReadStats : Type 0 where
  pub reads_started : ℕ
  pub reads_completed : ℕ
  pub read_requests_generated : ℕ
  pub read_responses_generated : ℕ
  pub read_responses_processed : ℕ
  pub bytes_read : ℕ
  pub rkey_errors : ℕ
  pub sequence_errors : ℕ
  pub access_errors : ℕ

-- `host_memory_` and `mr_table_` are kept apart, in `HostAccess`; `responder_states_` is only cleared.
pub record ReadProcessor : Type 0 where
  pub stats : ReadStats
  pub request_states : List (ℕ × ReadRequestState)

pub record ReadRequestResult : Type 0 where
  pub success : Bool
  pub needs_nak : Bool
  pub nak_psn : ℕ
  pub syndrome : AethSyndrome
  pub response_packets : List (List ℕ)

pub record ReadResponseResult : Type 0 where
  pub success : Bool
  pub is_read_complete : Bool
  pub cqe : Option RdmaCqe

abbrev pub no_stats : ReadStats
no_stats = record {
  reads_started = 0;
  reads_completed = 0;
  read_requests_generated = 0;
  read_responses_generated = 0;
  read_responses_processed = 0;
  bytes_read = 0;
  rkey_errors = 0;
  sequence_errors = 0;
  access_errors = 0;
}

-- The constructor.
abbrev pub create : ReadProcessor
create = record { stats = no_stats; request_states = [] }

unfoldable pub reset : ReadProcessor → ReadProcessor
reset p = record p { request_states = []; stats = no_stats }

unfoldable pub clear_read_state : ReadProcessor → ℕ → ReadProcessor
clear_read_state p qp_number = record p { request_states = erase qp_number p.request_states }

-- The bytes at an address, if the key lets a remote read of them through.
unfoldable pub read_from_remote : HostAccess → ℕ → ℕ → ℕ → ℕ → List ℕ × HostAccess
read_from_remote h address rkey pd_handle n =
    let (valid, table) = validate_rkey h.mr_table rkey pd_handle address n false in
    let (done, bytes) = smart_nic.Memory.Host.read h.host_memory address (replicate n 0) in
    let h' = record h { mr_table = table } in
    if not valid then ([], h') else if not (is_ok done) then ([], h') else (bytes, h')
