-- ===== src/Rdma/Packet/RoundTrip.antt =====
-- What a builder puts into a packet, a parser finds in it.
use smart_nic.Rdma.Packet.Steps.{
  parse_reth-build, parse_aeth-build, parse_immediate-build, parse_payload-build,
}
use smart_nic.Rdma.Packet.Fields.{
  bth_fields, IsWellFormed, reth_fields, aeth_fields, parse_bth-build, length-write_bth,
}
use smart_nic.Rdma.Packet.Icrc.{icrc_size, calculate, verify, calculate-lt}
use mathlib.Core.List.{append-nil, append_assoc, []}
use smart_nic.Base.{
  ℕ, false, ◌≡◌, arith, true, refl, length, List, ◌+◌, ◌++◌, length-append, if◌then◌else◌,
  Bool-cases, inl, slice_front, slice_middle, sym, inr, slice, ap, ◌∙◌, ltb,
}
use smart_nic.Rdma.Opcode.{has_immediate_variant, needs_reth, needs_aeth}
use smart_nic.Rdma.BitFields.{BitFields, IsLawful}
use smart_nic.Rdma.Packet.Headers.{bth_size}
use smart_nic.Rdma.Packet.Builder.{
  RdmaPacketBuilder, write_bth, write_reth, write_aeth, write_immediate, writes_immediate, build,
  front_of,
}
use smart_nic.Rdma.Packet.Parser.{
  RdmaPacketParser, parse_bth, parse_reth, parse_aeth, parse_immediate, parse_payload, parse,
  determine_headers,
}

-- What a parser holds after it read the packet: the fields of the headers that the opcode has, and what
-- it held before of the others.
abbrev pub read_by : RdmaPacketBuilder → RdmaPacketParser → RdmaPacketParser
read_by b p = record {
  bth = bth_fields b;
  reth = if needs_reth b.opcode then reth_fields b else p.reth;
  aeth = if needs_aeth b.opcode then aeth_fields b else p.aeth;
  immediate = if has_immediate_variant b.opcode then b.immediate else p.immediate;
  payload = b.payload;
  has_reth = needs_reth b.opcode;
  has_aeth = needs_aeth b.opcode;
  has_immediate = has_immediate_variant b.opcode;
}

writes_immediate-variant :
    (b : RdmaPacketBuilder) → IsWellFormed b → writes_immediate b ≡ has_immediate_variant b.opcode
unfolding writes_immediate
writes_immediate-variant b v = elim (Bool-cases (has_immediate_variant b.opcode)) [
  | inl has ↦ ground (arith, has, v.has_variant has)
  | inr none ↦ ground (arith, none)
]

-- The headers that are there for some opcodes.
abbrev reth_bytes : BitFields → RdmaPacketBuilder → List ℕ
reth_bytes bits b = if needs_reth b.opcode then write_reth bits b else []

abbrev aeth_bytes : BitFields → RdmaPacketBuilder → List ℕ
aeth_bytes bits b = if needs_aeth b.opcode then write_aeth bits b else []

abbrev immediate_bytes : BitFields → RdmaPacketBuilder → List ℕ
immediate_bytes bits b = if writes_immediate b then write_immediate bits b else []

module _ (bits : BitFields) (b : RdmaPacketBuilder) (law : IsLawful bits) (v : IsWellFormed b)
    (p : RdmaPacketParser) (bytes icrc : List ℕ) (n : length icrc ≡ icrc_size)
    (whole : bytes
      ≡ write_bth bits b
        ++ (reth_bytes bits b
            ++ (aeth_bytes bits b ++ (immediate_bytes bits b ++ (b.payload ++ icrc))))) where
  abbrev bth : List ℕ
  bth = write_bth bits b

  abbrev r : List ℕ
  r = reth_bytes bits b

  abbrev a : List ℕ
  a = aeth_bytes bits b

  abbrev i : List ℕ
  i = immediate_bytes bits b

  abbrev p1 : RdmaPacketParser
  p1 = record p {
    bth = bth_fields b;
    has_reth = needs_reth b.opcode;
    has_aeth = needs_aeth b.opcode;
    has_immediate = has_immediate_variant b.opcode;
  }

  abbrev p2 : RdmaPacketParser
  p2 = record p1 { reth = if needs_reth b.opcode then reth_fields b else p.reth }

  abbrev p3 : RdmaPacketParser
  p3 = record p2 { aeth = if needs_aeth b.opcode then aeth_fields b else p.aeth }

  abbrev p4 : RdmaPacketParser
  p4 = record p3 { immediate = if writes_immediate b then b.immediate else p.immediate }

  sizes :
      (length (b.payload ++ icrc) ≡ length b.payload + 4)
      × (length (i ++ (b.payload ++ icrc)) ≡ length i + length b.payload + 4)
      × (length (a ++ (i ++ (b.payload ++ icrc))) ≡ length a + length i + length b.payload + 4)
  sizes =
      let s = length-append b.payload icrc in
      let t = length-append i (b.payload ++ icrc) in
      let u = length-append a (i ++ (b.payload ++ icrc)) in
      (omega (arith, s, n), omega (arith, s, t, n), omega (arith, s, t, u, n))

  step_bth : parse_bth bits p bytes ≡ (true, record p { bth = bth_fields b })
  step_bth = rw whole (parse_bth-build bits law b v p _)

  step_reth : parse_reth bits p1 bytes bth_size ≡ (true, p2, bth_size + length r)
  step_reth =
      parse_reth-build bits law b v p1 bth _ bytes bth_size (omega (arith, sizes))
        (sym (length-write_bth bits law b v)) refl whole

  step_aeth :
      parse_aeth bits p2 bytes (bth_size + length r) ≡ (true, p3, bth_size + length r + length a)
  step_aeth =
      parse_aeth-build bits law b v p2 (bth ++ r) _ bytes _ (omega (arith, sizes))
        (omega (arith, length-append bth r, length-write_bth bits law b v)) refl
        (whole ∙ sym (append_assoc bth r _))

  step_immediate :
      parse_immediate bits p3 bytes (bth_size + length r + length a)
      ≡ (true, p4, bth_size + length r + length a + length i)
  step_immediate =
      parse_immediate-build bits law b v p3 ((bth ++ r) ++ a) _ bytes _ (omega (arith, sizes))
        (omega
          (arith, length-append bth r, length-append (bth ++ r) a, length-write_bth bits law b v))
        (sym (writes_immediate-variant b v))
        (whole ∙ sym (append_assoc bth r _) ∙ sym (append_assoc (bth ++ r) a _))

  step_payload :
      parse_payload bits p4 bytes (bth_size + length r + length a + length i)
      ≡ record p4 { payload = b.payload }
  step_payload =
      parse_payload-build bits law b v p4 (((bth ++ r) ++ a) ++ i) (b.payload ++ icrc) bytes _
        (omega (arith, sizes))
        (omega (
          arith,
          length-append bth r,
          length-append (bth ++ r) a,
          length-append ((bth ++ r) ++ a) i,
          length-write_bth bits law b v,
        ))
        icrc refl n
        (whole
          ∙ sym (append_assoc bth r _)
          ∙ sym (append_assoc (bth ++ r) a _)
          ∙ sym (append_assoc ((bth ++ r) ++ a) i _))

  long_enough : ltb (length bytes) (bth_size + icrc_size) ≡ false
  long_enough = ground (
    arith,
    sizes,
    ap length whole,
    length-append bth (r ++ (a ++ (i ++ (b.payload ++ icrc)))),
    length-append r (a ++ (i ++ (b.payload ++ icrc))),
    length-write_bth bits law b v,
  )

  parse-parts : parse bits p bytes ≡ (true, read_by b p)
  unfolding parse determine_headers
  parse-parts = rw long_enough (
      rw step_bth (
        rw step_reth (
          rw step_aeth
            (rw step_immediate (rw step_payload (rw (writes_immediate-variant b v) refl))))))

-- A packet built of fields that fit is parsed: the parser, whatever it held before, accepts it and holds
-- the builder's fields and payload. So it is for any bit field library that reads back what it wrote.
pub parse-build :
    (bits : BitFields) (p : RdmaPacketParser) (b : RdmaPacketBuilder)
    → IsLawful bits
    → IsWellFormed b
    → parse bits p (build bits b) ≡ (true, read_by b p)
unfolding build front_of
parse-build bits p b law v =
    parse-parts bits b law v p _ (bits.write_aligned (calculate (front_of bits b)))
      (law.aligned_size _) (simp append_assoc)

-- The checksum of a built packet is verified.
pub verify-build :
    (bits : BitFields) (b : RdmaPacketBuilder) → IsLawful bits → verify bits (build bits b) ≡ true
unfolding verify build
verify-build bits b law =
    let front = front_of bits b in
    let sum = bits.write_aligned (calculate front) in
    let size : length (front ++ sum) ≡ length front + 4 =
      omega (arith, length-append front sum, law.aligned_size (calculate front)) in
    let found : slice (front ++ sum) 0 (length front) ≡ front = slice_front front sum in
    let middle : slice (front ++ (sum ++ [])) (length front) 4 ≡ sum =
      slice_middle front sum [] _ _ refl (sym (law.aligned_size _)) in
    let kept : slice (front ++ sum) (length front) 4 ≡ sum = rw append-nil at middle in
    ground (arith, size, found, kept, law.aligned_back (calculate front) (calculate-lt front))
