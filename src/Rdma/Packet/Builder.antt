-- ===== src/Rdma/Packet/Builder.antt =====
-- `RdmaPacketBuilder` of include/nic/rocev2/packet.h and src/rocev2/packet.cpp.
use smart_nic.Base.{
  ℕ, Bool, List, true, ◌%◌, if◌then◌else◌, ◌*◌, ◌&&◌, false, ◌^◌, ◌+◌, ◌∷◌, ◌++◌, [],
}
use smart_nic.Rdma.Psn.{mask_psn}
use smart_nic.Rdma.Wqe.{AethSyndrome, ack}
use smart_nic.Rdma.Opcode.{
  RdmaOpcode, rc_send_only, opcode_code, needs_reth, needs_aeth, has_immediate_variant,
}
use smart_nic.Rdma.BitFields.{BitFields}
use smart_nic.Rdma.Packet.Headers.{
  bth_format, reth_format, aeth_format, immediate_format, syndrome_code,
}
use smart_nic.Rdma.Packet.Icrc.{calculate}

-- The builder's fields; its setters mask what they store.
pub record RdmaPacketBuilder : Type 0 where
  pub opcode : RdmaOpcode
  pub dest_qp : ℕ
  pub psn : ℕ
  pub partition_key : ℕ
  pub ack_request : Bool
  pub solicited_event : Bool
  pub pad_count : ℕ
  pub fecn : Bool
  pub becn : Bool
  pub remote_address : ℕ
  pub rkey : ℕ
  pub dma_length : ℕ
  pub syndrome : AethSyndrome
  pub msn : ℕ
  pub immediate : ℕ
  pub has_immediate : Bool
  pub payload : List ℕ

abbrev pub default_pkey : ℕ
default_pkey = 0xffff

-- The constructor, and the state after `reset`.
unfoldable pub new_builder : RdmaPacketBuilder
new_builder = record {
  opcode = rc_send_only;
  dest_qp = 0;
  psn = 0;
  partition_key = default_pkey;
  ack_request = true;
  solicited_event = false;
  pad_count = 0;
  fecn = false;
  becn = false;
  remote_address = 0;
  rkey = 0;
  dma_length = 0;
  syndrome = ack;
  msn = 0;
  immediate = 0;
  has_immediate = false;
  payload = [];
}

unfoldable pub set_opcode : RdmaOpcode → RdmaPacketBuilder → RdmaPacketBuilder
set_opcode o b = record b { opcode = o }

unfoldable pub set_dest_qp : ℕ → RdmaPacketBuilder → RdmaPacketBuilder
set_dest_qp n b = record b { dest_qp = n % 2 ^ 24 }

unfoldable pub set_psn : ℕ → RdmaPacketBuilder → RdmaPacketBuilder
unfolding mask_psn
set_psn n b = record b { psn = mask_psn n }

unfoldable pub set_partition_key : ℕ → RdmaPacketBuilder → RdmaPacketBuilder
set_partition_key n b = record b { partition_key = n }

unfoldable pub set_ack_request : Bool → RdmaPacketBuilder → RdmaPacketBuilder
set_ack_request f b = record b { ack_request = f }

unfoldable pub set_solicited_event : Bool → RdmaPacketBuilder → RdmaPacketBuilder
set_solicited_event f b = record b { solicited_event = f }

unfoldable pub set_pad_count : ℕ → RdmaPacketBuilder → RdmaPacketBuilder
set_pad_count n b = record b { pad_count = n % 4 }

unfoldable pub set_fecn : Bool → RdmaPacketBuilder → RdmaPacketBuilder
set_fecn f b = record b { fecn = f }

unfoldable pub set_becn : Bool → RdmaPacketBuilder → RdmaPacketBuilder
set_becn f b = record b { becn = f }

unfoldable pub set_remote_address : ℕ → RdmaPacketBuilder → RdmaPacketBuilder
set_remote_address n b = record b { remote_address = n }

unfoldable pub set_rkey : ℕ → RdmaPacketBuilder → RdmaPacketBuilder
set_rkey n b = record b { rkey = n }

unfoldable pub set_dma_length : ℕ → RdmaPacketBuilder → RdmaPacketBuilder
set_dma_length n b = record b { dma_length = n }

unfoldable pub set_syndrome : AethSyndrome → RdmaPacketBuilder → RdmaPacketBuilder
set_syndrome s b = record b { syndrome = s }

unfoldable pub set_msn : ℕ → RdmaPacketBuilder → RdmaPacketBuilder
set_msn n b = record b { msn = n % 2 ^ 24 }

unfoldable pub set_immediate : ℕ → RdmaPacketBuilder → RdmaPacketBuilder
set_immediate n b = record b { immediate = n; has_immediate = true }

unfoldable pub set_payload : List ℕ → RdmaPacketBuilder → RdmaPacketBuilder
set_payload bytes b = record b { payload = bytes }

abbrev pub flag : Bool → ℕ
flag b = if b then 1 else 0

-- `fecn_becn_reserved`, the two highest bits of a byte.
unfoldable pub fecn_becn : RdmaPacketBuilder → ℕ
fecn_becn b = flag b.fecn * 0x80 + flag b.becn * 0x40

unfoldable pub bth_values : RdmaPacketBuilder → List ℕ
unfolding opcode_code fecn_becn
bth_values b =
    opcode_code b.opcode
    ∷ flag b.solicited_event
    ∷ 0
    ∷ (b.pad_count % 4)
    ∷ 0
    ∷ b.partition_key
    ∷ fecn_becn b
    ∷ b.dest_qp
    ∷ flag b.ack_request
    ∷ 0
    ∷ b.psn
    ∷ []

unfoldable pub writes_immediate : RdmaPacketBuilder → Bool
writes_immediate b = b.has_immediate && has_immediate_variant b.opcode

module _ (bits : BitFields) where
  unfoldable pub write_bth : RdmaPacketBuilder → List ℕ
  unfolding bth_values
  write_bth b = bits.serialize bth_format (bth_values b)

  unfoldable pub write_reth : RdmaPacketBuilder → List ℕ
  write_reth b = bits.serialize reth_format (b.remote_address ∷ b.rkey ∷ b.dma_length ∷ [])

  unfoldable pub write_aeth : RdmaPacketBuilder → List ℕ
  write_aeth b = bits.serialize aeth_format (syndrome_code b.syndrome ∷ b.msn ∷ [])

  unfoldable pub write_immediate : RdmaPacketBuilder → List ℕ
  write_immediate b = bits.serialize immediate_format (b.immediate ∷ [])

  -- The packet up to its checksum.
  unfoldable pub front_of : RdmaPacketBuilder → List ℕ
  unfolding write_bth write_reth write_aeth write_immediate writes_immediate
  front_of b =
      write_bth b
      ++ ((if needs_reth b.opcode then write_reth b else [])
          ++ ((if needs_aeth b.opcode then write_aeth b else [])
              ++ ((if writes_immediate b then write_immediate b else []) ++ b.payload)))

  unfoldable pub build : RdmaPacketBuilder → List ℕ
  unfolding front_of
  build b = front_of b ++ bits.write_aligned (calculate (front_of b))
