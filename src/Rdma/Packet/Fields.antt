-- ===== src/Rdma/Packet/Fields.antt =====
-- What the bit field library makes of the headers: their sizes, and the fields that are read back.
use mathlib.Core.List.{append-nil, []}
use smart_nic.Base.{
  ℕ, Bool, ◌<◌, false, ◌≡◌, not, ◌^◌, arith, ◌==◌, ◌%◌, true, ◌/◌, refl, ◌*◌, length, List, ◌+◌,
  ◌++◌, length-append, ◌∷◌,
}
use smart_nic.Rdma.Wqe.{AethSyndrome}
use smart_nic.Rdma.Opcode.{IsListed, opcode_of-opcode_code, opcode_code-lt, has_immediate_variant}
use smart_nic.Rdma.BitFields.{BitFields, IsLawful, Fits, total_bits}
use smart_nic.Rdma.Packet.Headers.{
  BthFields, RethFields, AethFields, bth_format, reth_format, aeth_format, immediate_format,
  bth_size, reth_size, aeth_size, imm_size, syndrome_of, syndrome_code,
}
use smart_nic.Rdma.Packet.Builder.{
  RdmaPacketBuilder, bth_values, fecn_becn, flag, write_bth, write_reth, write_aeth,
  write_immediate,
}
use smart_nic.Rdma.Packet.Parser.{
  RdmaPacketParser, bth_of, parse_bth, reth_of, aeth_of, immediate_of,
}

abbrev pub IsListedSyndrome : AethSyndrome → Type 0
IsListedSyndrome (AethSyndrome.unlisted_syndrome n) = ⊥
IsListedSyndrome _ = Unit

-- The fields fit their widths, the opcode and the syndrome are enumerators, and an opcode with an
-- immediate variant comes with an immediate.
pub record IsWellFormed (b : RdmaPacketBuilder) : Type 0 where
  pub listed : IsListed b.opcode
  pub listed_syndrome : IsListedSyndrome b.syndrome
  pub dest_qp_in : b.dest_qp < 2 ^ 24
  pub psn_in : b.psn < 2 ^ 24
  pub partition_key_in : b.partition_key < 2 ^ 16
  pub pad_count_in : b.pad_count < 4
  pub remote_address_in : b.remote_address < 2 ^ 64
  pub rkey_in : b.rkey < 2 ^ 32
  pub dma_length_in : b.dma_length < 2 ^ 32
  pub msn_in : b.msn < 2 ^ 24
  pub immediate_in : b.immediate < 2 ^ 32
  pub has_variant : has_immediate_variant b.opcode ≡ true → b.has_immediate ≡ true

-- The headers as the builder's fields give them.
abbrev pub bth_fields : RdmaPacketBuilder → BthFields
bth_fields b = record {
  opcode = b.opcode;
  solicited_event = b.solicited_event;
  mig_req = false;
  pad_count = b.pad_count;
  transport_version = 0;
  partition_key = b.partition_key;
  fecn = b.fecn;
  becn = b.becn;
  dest_qp = b.dest_qp;
  ack_request = b.ack_request;
  psn = b.psn;
}

abbrev pub reth_fields : RdmaPacketBuilder → RethFields
reth_fields b = record {
  virtual_address = b.remote_address;
  rkey = b.rkey;
  dma_length = b.dma_length;
}

abbrev pub aeth_fields : RdmaPacketBuilder → AethFields
aeth_fields b = record { syndrome = b.syndrome; msn = b.msn }

syndrome_of-syndrome_code :
    (s : AethSyndrome)
    → IsListedSyndrome s
    → (syndrome_of (syndrome_code s) ≡ s) × (syndrome_code s < 256)
unfolding syndrome_of syndrome_code
syndrome_of-syndrome_code (AethSyndrome.unlisted_syndrome n) h = absurd h
syndrome_of-syndrome_code AethSyndrome.ack h = (refl, omega arith)
syndrome_of-syndrome_code _ h = (refl, omega arith)

flag-ne : (b : Bool) → not (flag b == 0) ≡ b
flag-ne true = refl
flag-ne false = refl

-- The reserved byte gives both of its flags back.
reserved_bits :
    (f g : Bool)
    → let r = flag f * 0x80 + flag g * 0x40 in
      (r < 256) × ((r % 256 / 0x80 % 2 == 1) ≡ f) × ((r % 256 / 0x40 % 2 == 1) ≡ g)
reserved_bits true true = (omega arith, refl, refl)
reserved_bits true false = (omega arith, refl, refl)
reserved_bits false true = (omega arith, refl, refl)
reserved_bits false false = (omega arith, refl, refl)

flag-lt : (b : Bool) → flag b < 2
flag-lt true = omega arith
flag-lt false = omega arith

bth_of-bth_values : (b : RdmaPacketBuilder) → IsWellFormed b → bth_of (bth_values b) ≡ bth_fields b
unfolding bth_of bth_values fecn_becn
bth_of-bth_values b v = ground (
  arith,
  opcode_of-opcode_code b.opcode v.listed,
  opcode_code-lt b.opcode v.listed,
  reserved_bits b.fecn b.becn,
  v,
)

bth_values-Fits : (b : RdmaPacketBuilder) → IsWellFormed b → Fits bth_format (bth_values b)
unfolding bth_values fecn_becn
bth_values-Fits b v = omega (
  arith,
  opcode_code-lt b.opcode v.listed,
  reserved_bits b.fecn b.becn,
  flag-lt b.solicited_event,
  flag-lt b.ack_request,
  v.dest_qp_in,
  v.psn_in,
  v.partition_key_in,
)

module _ (bits : BitFields) (law : IsLawful bits) (b : RdmaPacketBuilder) (v : IsWellFormed b) where
  pub length-write_bth : length (write_bth bits b) ≡ bth_size
  unfolding write_bth
  length-write_bth = law.size bth_format (bth_values b) bth_size (bth_values-Fits b v) refl

  pub length-write_reth : length (write_reth bits b) ≡ reth_size
  unfolding write_reth
  length-write_reth =
      law.size reth_format _ reth_size (v.remote_address_in, (v.rkey_in, (v.dma_length_in, tt)))
        refl

  pub length-write_aeth : length (write_aeth bits b) ≡ aeth_size
  unfolding write_aeth
  length-write_aeth =
      law.size aeth_format _ aeth_size
        (omega (arith, syndrome_of-syndrome_code b.syndrome v.listed_syndrome), (v.msn_in, tt)) refl

  pub length-write_immediate : length (write_immediate bits b) ≡ imm_size
  unfolding write_immediate
  length-write_immediate = law.size immediate_format _ imm_size (v.immediate_in, tt) refl

  pub parse_bth-build :
      (p : RdmaPacketParser) (rest : List ℕ)
      → parse_bth bits p (write_bth bits b ++ rest) ≡ (true, record p { bth = bth_fields b })
  unfolding parse_bth write_bth
  parse_bth-build p rest = ground (
    arith,
    length-append (write_bth bits b) rest,
    length-write_bth,
    law.read_back bth_format (bth_values b) rest bth_size (bth_values-Fits b v) refl,
    bth_of-bth_values b v,
  )

  read_alone :
      (ws vs : List ℕ) (n : ℕ)
      → Fits ws vs
      → total_bits ws ≡ 8 * n
      → bits.deserialize ws (bits.serialize ws vs) ≡ vs
  read_alone ws vs n fits e = rw append-nil at (law.read_back ws vs [] n fits e)

  pub reth_back : reth_of (bits.deserialize reth_format (write_reth bits b)) ≡ reth_fields b
  unfolding write_reth reth_of
  reth_back = ground (
    arith,
    read_alone reth_format (b.remote_address ∷ b.rkey ∷ b.dma_length ∷ []) reth_size
        (v.remote_address_in, (v.rkey_in, (v.dma_length_in, tt))) refl,
    v.rkey_in,
    v.dma_length_in,
  )

  pub aeth_back : aeth_of (bits.deserialize aeth_format (write_aeth bits b)) ≡ aeth_fields b
  unfolding write_aeth aeth_of
  aeth_back =
      let code = syndrome_of-syndrome_code b.syndrome v.listed_syndrome in
      ground (
        arith,
        read_alone aeth_format (syndrome_code b.syndrome ∷ b.msn ∷ []) aeth_size
            (code.1, (v.msn_in, tt)) refl,
        code,
        v.msn_in,
      )

  pub immediate_back :
      immediate_of (bits.deserialize immediate_format (write_immediate bits b)) ≡ b.immediate
  unfolding write_immediate immediate_of
  immediate_back = ground (
    arith,
    read_alone immediate_format (b.immediate ∷ []) imm_size (v.immediate_in, tt) refl,
    v.immediate_in,
  )
