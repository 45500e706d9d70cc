-- ===== src/Rdma/Packet/Headers.antt =====
-- The headers of RoCEv2 packets: include/nic/rocev2/formats.h and the structs of packet.h.
use smart_nic.Base.{ℕ, Bool, List, if◌then◌else◌, ◌∷◌, ◌==◌, []}
use smart_nic.Rdma.Wqe.{
  AethSyndrome, ack, rnr_nak, psn_seq_error, invalid_request, nak_remote_access, nak_remote_op,
  unlisted_syndrome,
}
use smart_nic.Rdma.Opcode.{RdmaOpcode}

abbrev pub bth_format : List ℕ
bth_format = 8 ∷ 1 ∷ 1 ∷ 2 ∷ 4 ∷ 16 ∷ 8 ∷ 24 ∷ 1 ∷ 7 ∷ 24 ∷ []

abbrev pub reth_format : List ℕ
reth_format = 64 ∷ 32 ∷ 32 ∷ []

abbrev pub aeth_format : List ℕ
aeth_format = 8 ∷ 24 ∷ []

abbrev pub immediate_format : List ℕ
immediate_format = 32 ∷ []

abbrev pub bth_size : ℕ
bth_size = 12

abbrev pub reth_size : ℕ
reth_size = 16

abbrev pub aeth_size : ℕ
aeth_size = 4

abbrev pub imm_size : ℕ
imm_size = 4

pub record BthFields : Type 0 where
  pub opcode : RdmaOpcode
  pub solicited_event : Bool
  pub mig_req : Bool
  pub pad_count : ℕ
  pub transport_version : ℕ
  pub partition_key : ℕ
  pub fecn : Bool
  pub becn : Bool
  pub dest_qp : ℕ
  pub ack_request : Bool
  pub psn : ℕ

pub record RethFields : Type 0 where
  pub virtual_address : ℕ
  pub rkey : ℕ
  pub dma_length : ℕ

pub record AethFields : Type 0 where
  pub syndrome : AethSyndrome
  pub msn : ℕ

unfoldable pub syndrome_code : AethSyndrome → ℕ
syndrome_code ack = 0x00
syndrome_code rnr_nak = 0x20
syndrome_code psn_seq_error = 0x60
syndrome_code invalid_request = 0x61
syndrome_code nak_remote_access = 0x62
syndrome_code nak_remote_op = 0x63
syndrome_code (unlisted_syndrome n) = n

unfoldable pub syndrome_of : ℕ → AethSyndrome
syndrome_of n =
    if n == 0x00
    then ack
    else if n == 0x20
    then rnr_nak
    else if n == 0x60
    then psn_seq_error
    else if n == 0x61
    then invalid_request
    else if n == 0x62
    then nak_remote_access
    else if n == 0x63
    then nak_remote_op
    else unlisted_syndrome n
