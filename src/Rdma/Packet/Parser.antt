-- ===== src/Rdma/Packet/Parser.antt =====
-- `RdmaPacketParser` of include/nic/rocev2/packet.h and src/rocev2/packet.cpp.
use smart_nic.Base.{
  ℕ, Bool, List, get_or, if◌then◌else◌, ltb, length, ◌%◌, false, ◌-◌, not, ◌+◌, ◌^◌, true, slice,
  ◌==◌, [], ◌/◌,
}
use smart_nic.Rdma.Opcode.{opcode_of, needs_reth, needs_aeth, has_immediate_variant}
use smart_nic.Rdma.BitFields.{BitFields}
use smart_nic.Rdma.Packet.Headers.{
  BthFields, RethFields, AethFields, bth_format, reth_format, aeth_format, immediate_format,
  bth_size, reth_size, aeth_size, imm_size, syndrome_of,
}
use smart_nic.Rdma.Packet.Icrc.{icrc_size, verify}

-- What a parser keeps of a packet.
pub record RdmaPacketParser : Type 0 where
  pub bth : BthFields
  pub reth : RethFields
  pub aeth : AethFields
  pub immediate : ℕ
  pub payload : List ℕ
  pub has_reth : Bool
  pub has_aeth : Bool
  pub has_immediate : Bool

unfoldable pub bth_of : List ℕ → BthFields
bth_of vs =
    let reserved = get_or vs 6 0 % 2 ^ 8 in
    record {
      opcode = opcode_of (get_or vs 0 0 % 2 ^ 8);
      solicited_event = not (get_or vs 1 0 == 0);
      mig_req = not (get_or vs 2 0 == 0);
      pad_count = get_or vs 3 0 % 2 ^ 8;
      transport_version = get_or vs 4 0 % 2 ^ 8;
      partition_key = get_or vs 5 0 % 2 ^ 16;
      fecn = reserved / 0x80 % 2 == 1;
      becn = reserved / 0x40 % 2 == 1;
      dest_qp = get_or vs 7 0 % 2 ^ 32;
      ack_request = not (get_or vs 8 0 == 0);
      psn = get_or vs 10 0 % 2 ^ 32;
    }

unfoldable pub reth_of : List ℕ → RethFields
reth_of vs = record {
  virtual_address = get_or vs 0 0;
  rkey = get_or vs 1 0 % 2 ^ 32;
  dma_length = get_or vs 2 0 % 2 ^ 32;
}

unfoldable pub aeth_of : List ℕ → AethFields
aeth_of vs = record { syndrome = syndrome_of (get_or vs 0 0 % 2 ^ 8); msn = get_or vs 1 0 % 2 ^ 32 }

unfoldable pub immediate_of : List ℕ → ℕ
immediate_of vs = get_or vs 0 0 % 2 ^ 32

-- `determine_headers`: an opcode with an immediate variant always has the immediate header.
unfoldable pub determine_headers : RdmaPacketParser → RdmaPacketParser
determine_headers p = record p {
  has_reth = needs_reth p.bth.opcode;
  has_aeth = needs_aeth p.bth.opcode;
  has_immediate = has_immediate_variant p.bth.opcode;
}

module _ (bits : BitFields) where
  unfoldable pub parse_bth : RdmaPacketParser → List ℕ → Bool × RdmaPacketParser
  unfolding bth_of
  parse_bth p bytes =
      if ltb (length bytes) bth_size
      then (false, p)
      else (true, record p { bth = bth_of (bits.deserialize bth_format bytes) })

  -- A header of `n` bytes at `offset` that would run into the checksum is refused.
  unfoldable pub runs_out : List ℕ → ℕ → ℕ → Bool
  runs_out bytes offset n = ltb (length bytes - icrc_size) (offset + n)

  unfoldable pub parse_reth : RdmaPacketParser → List ℕ → ℕ → Bool × RdmaPacketParser × ℕ
  unfolding runs_out reth_of
  parse_reth p bytes offset =
      if not p.has_reth
      then (true, p, offset)
      else if runs_out bytes offset reth_size
      then (false, p, offset)
      else (
        true,
        record p { reth = reth_of (bits.deserialize reth_format (slice bytes offset reth_size)) },
        offset + reth_size,
      )

  unfoldable pub parse_aeth : RdmaPacketParser → List ℕ → ℕ → Bool × RdmaPacketParser × ℕ
  unfolding runs_out aeth_of
  parse_aeth p bytes offset =
      if not p.has_aeth
      then (true, p, offset)
      else if runs_out bytes offset aeth_size
      then (false, p, offset)
      else (
        true,
        record p { aeth = aeth_of (bits.deserialize aeth_format (slice bytes offset aeth_size)) },
        offset + aeth_size,
      )

  unfoldable pub parse_immediate : RdmaPacketParser → List ℕ → ℕ → Bool × RdmaPacketParser × ℕ
  unfolding runs_out immediate_of
  parse_immediate p bytes offset =
      if not p.has_immediate
      then (true, p, offset)
      else if runs_out bytes offset imm_size
      then (false, p, offset)
      else (
        true,
        record p {
          immediate =
              immediate_of (bits.deserialize immediate_format (slice bytes offset imm_size));
        },
        offset + imm_size,
      )

  unfoldable pub parse_payload : RdmaPacketParser → List ℕ → ℕ → RdmaPacketParser
  parse_payload p bytes offset =
      let payload_end = length bytes - icrc_size in
      record p {
        payload = if ltb offset payload_end then slice bytes offset (payload_end - offset) else [];
      }

  unfoldable pub parse : RdmaPacketParser → List ℕ → Bool × RdmaPacketParser
  unfolding parse_bth determine_headers parse_reth parse_aeth parse_immediate parse_payload
  parse p bytes =
      if ltb (length bytes) (bth_size + icrc_size)
      then (false, p)
      else let (ok, p1) = parse_bth p bytes in
        if not ok
        then (false, p1)
        else let (ok2, p2, o2) = parse_reth (determine_headers p1) bytes bth_size in
          if not ok2
          then (false, p2)
          else let (ok3, p3, o3) = parse_aeth p2 bytes o2 in
            if not ok3
            then (false, p3)
            else let (ok4, p4, o4) = parse_immediate p3 bytes o3 in
              if not ok4 then (false, p4) else (true, parse_payload p4 bytes o4)

  unfoldable pub verify_icrc : List ℕ → Bool
  verify_icrc bytes = verify bits bytes
