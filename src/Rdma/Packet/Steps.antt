-- ===== src/Rdma/Packet/Steps.antt =====
-- The parser at one header of a built packet.
use smart_nic.Rdma.Packet.Fields.{
  IsWellFormed, reth_fields, aeth_fields, length-write_immediate, length-write_reth,
  length-write_aeth, immediate_back, reth_back, aeth_back,
}
use smart_nic.Rdma.Packet.Icrc.{icrc_size}
use mathlib.Core.List.{[]}
use smart_nic.Base.{
  ℕ, ◌≡◌, arith, true, length, List, ◌+◌, ◌++◌, length-append, ◌≤◌, if◌then◌else◌, Bool-cases, inl,
  slice_middle, sym, inr, slice, List-cases, ap, ◌-◌,
}
use smart_nic.Rdma.Opcode.{needs_reth, needs_aeth}
use smart_nic.Rdma.BitFields.{BitFields, IsLawful}
use smart_nic.Rdma.Packet.Headers.{reth_size, aeth_size, imm_size}
use smart_nic.Rdma.Packet.Builder.{
  RdmaPacketBuilder, write_reth, write_aeth, write_immediate, writes_immediate,
}
use smart_nic.Rdma.Packet.Parser.{
  RdmaPacketParser, parse_reth, parse_aeth, parse_immediate, runs_out, parse_payload,
}

module _ (bits : BitFields) (law : IsLawful bits) (b : RdmaPacketBuilder) (v : IsWellFormed b) where
  -- A header of a packet that goes on behind it, with room for the checksum.
  module _ (p : RdmaPacketParser) (pre rest bytes : List ℕ) (off : ℕ)
      (room : icrc_size ≤ length rest) (at : off ≡ length pre) where
    pub parse_reth-build :
        p.has_reth ≡ needs_reth b.opcode
        → bytes ≡ pre ++ ((if needs_reth b.opcode then write_reth bits b else []) ++ rest)
        → parse_reth bits p bytes off ≡ (
          true,
          record p { reth = if needs_reth b.opcode then reth_fields b else p.reth },
          off + length (if needs_reth b.opcode then write_reth bits b else []),
        )
    unfolding parse_reth runs_out
    parse_reth-build has split = elim (Bool-cases (needs_reth b.opcode)) [
      | inl needed ↦ ground (
        arith,
        needed,
        (length-write_reth bits law b v),
        slice_middle pre (write_reth bits b) rest off reth_size at
            (sym (length-write_reth bits law b v)),
        length-append pre (write_reth bits b ++ rest),
        length-append (write_reth bits b) rest,
        (reth_back bits law b v),
      )
      | inr absent ↦ ground (arith, absent)
    ]

    pub parse_aeth-build :
        p.has_aeth ≡ needs_aeth b.opcode
        → bytes ≡ pre ++ ((if needs_aeth b.opcode then write_aeth bits b else []) ++ rest)
        → parse_aeth bits p bytes off ≡ (
          true,
          record p { aeth = if needs_aeth b.opcode then aeth_fields b else p.aeth },
          off + length (if needs_aeth b.opcode then write_aeth bits b else []),
        )
    unfolding parse_aeth runs_out
    parse_aeth-build has split = elim (Bool-cases (needs_aeth b.opcode)) [
      | inl needed ↦ ground (
        arith,
        needed,
        (length-write_aeth bits law b v),
        slice_middle pre (write_aeth bits b) rest off aeth_size at
            (sym (length-write_aeth bits law b v)),
        length-append pre (write_aeth bits b ++ rest),
        length-append (write_aeth bits b) rest,
        (aeth_back bits law b v),
      )
      | inr absent ↦ ground (arith, absent)
    ]

    pub parse_immediate-build :
        p.has_immediate ≡ writes_immediate b
        → bytes ≡ pre ++ ((if writes_immediate b then write_immediate bits b else []) ++ rest)
        → parse_immediate bits p bytes off ≡ (
          true,
          record p { immediate = if writes_immediate b then b.immediate else p.immediate },
          off + length (if writes_immediate b then write_immediate bits b else []),
        )
    unfolding parse_immediate runs_out
    parse_immediate-build has split = elim (Bool-cases (writes_immediate b)) [
      | inl needed ↦ ground (
        arith,
        needed,
        (length-write_immediate bits law b v),
        slice_middle pre (write_immediate bits b) rest off imm_size at
            (sym (length-write_immediate bits law b v)),
        length-append pre (write_immediate bits b ++ rest),
        length-append (write_immediate bits b) rest,
        (immediate_back bits law b v),
      )
      | inr absent ↦ ground (arith, absent)
    ]

    pub parse_payload-build :
        (icrc : List ℕ)
        → rest ≡ b.payload ++ icrc
        → length icrc ≡ icrc_size
        → bytes ≡ pre ++ rest
        → parse_payload bits p bytes off ≡ record p { payload = b.payload }
    unfolding parse_payload
    parse_payload-build icrc tail_eq n split =
        let whole : bytes ≡ pre ++ (b.payload ++ icrc) = cc in
        let size : length bytes ≡ off + length b.payload + 4 = omega (
          arith,
          ap length whole,
          length-append pre (b.payload ++ icrc),
          length-append b.payload icrc,
        ) in
        let found : slice bytes off (length bytes - 4 - off) ≡ b.payload =
          rw whole
            (slice_middle pre b.payload icrc off _ at (omega (arith, size, ap length whole))) in
        elim (List-cases b.payload) [
          | inl empty ↦ ground (arith, empty, size)
          | inr (x, xs, nonempty) ↦ ground (arith, nonempty, ap length nonempty, size, found)
        ]
