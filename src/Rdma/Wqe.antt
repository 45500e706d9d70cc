-- ===== src/Rdma/Wqe.antt =====
-- include/nic/rocev2/wqe.h, cqe.h and the enumerations of include/nic/rocev2/types.h.
use smart_nic.Base.{ℕ, ◌+◌, ◌%◌, ◌^◌, Bool, List, [], ◌∷◌}
use smart_nic.Memory.Dma.{SglEntry}

pub data QpType : Type 0 where
  rc uc ud : QpType

pub data QpState : Type 0 where
  reset_state init rtr rts sqd sq_err error : QpState

pub data WqeOpcode : Type 0 where
  send send_imm rdma_write rdma_write_imm rdma_read : WqeOpcode

pub data WqeStatus : Type 0 where
  success local_length_error local_qp_operation_error local_protection_error wr_flush_error
        memory_window_bind_error bad_response_error local_access_error remote_invalid_request_error
        remote_access_error remote_operation_error retry_exceeded_error rnr_retry_exceeded_error
        transport_retry_exceeded_error invalid_qp_state_error :
      WqeStatus

-- A byte that is cast to it may be none of the enumerators.
pub data AethSyndrome : Type 0 where
  ack rnr_nak psn_seq_error invalid_request nak_remote_access nak_remote_op : AethSyndrome
  unlisted_syndrome : ℕ → AethSyndrome

pub record SendWqe : Type 0 where
  pub wr_id : ℕ
  pub opcode : WqeOpcode
  pub sgl : List SglEntry
  pub total_length : ℕ
  pub signaled : Bool
  pub solicited : Bool
  pub fence : Bool
  pub inline_data : Bool
  pub immediate_data : ℕ
  pub remote_address : ℕ
  pub rkey : ℕ
  pub local_lkey : ℕ

pub record RecvWqe : Type 0 where
  pub wr_id : ℕ
  pub sgl : List SglEntry
  pub total_length : ℕ

pub record RdmaCqe : Type 0 where
  pub wr_id : ℕ
  pub status : WqeStatus
  pub opcode : WqeOpcode
  pub qp_number : ℕ
  pub bytes_completed : ℕ
  pub immediate_data : ℕ
  pub has_immediate : Bool
  pub is_send : Bool

-- `compute_sgl_length`: a 32-bit sum of `size_t` lengths.
unfoldable pub compute_sgl_length : ℕ → List SglEntry → ℕ
compute_sgl_length total [] = total
compute_sgl_length total (s ∷ ss) = compute_sgl_length ((total + s.size) % 2 ^ 32) ss
