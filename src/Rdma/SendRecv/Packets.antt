-- ===== src/Rdma/SendRecv/Packets.antt =====
-- The packets of a SEND message are well formed, and its receiver reads the message from them.
use smart_nic.Rdma.Transfer.Segments.{join, packet_count-enough, mtu_bytes-pos, chunks, join-chunks}
use smart_nic.Rdma.QueuePair.Reliable.{mtu_bytes, next_send_psn}
use smart_nic.Rdma.Packet.RoundTrip.{parse-build}
use smart_nic.Rdma.SendRecv.{SendRecvProcessor}
use smart_nic.Rdma.SendRecv.Segments.{builders, send_segments-packets}
use smart_nic.Rdma.Packet.Parser.{RdmaPacketParser, parse}
use smart_nic.Rdma.BitFields.{BitFields, IsLawful}
use smart_nic.Rdma.Packet.Fields.{IsWellFormed}
use smart_nic.Rdma.Wqe.{SendWqe}
use smart_nic.Rdma.Psn.{mask_psn, advance_psn}
use smart_nic.Rdma.Packet.Builder.{
  set_opcode, set_dest_qp, set_psn, set_pad_count, set_solicited_event, set_ack_request,
  set_payload, set_immediate, new_builder, RdmaPacketBuilder, build,
}
use smart_nic.Base.{
  Bool, ◌&&◌, ◌≡◌, ℕ, List, ◌<◌, ◌^◌, ◌==◌, sub32, Bool-cases, inl, arith, inr, if-cases, map, ap,
  ◌∷◌, ◌∙◌, length, ◌+◌, [], if◌then◌else◌, ◌≤◌, ◌*◌, length-zero,
}
use smart_nic.Rdma.Opcode.{has_immediate_variant, IsListed, rc_send_only_imm, rc_send_only}
use smart_nic.Rdma.SendRecv.Generate.{
  get_send_opcode, send_packet, is_send_imm, empty_send, generate_send_packets, is_send_wqe,
  send_segments, begin_send,
}
use smart_nic.Base.{true, false, refl}
use smart_nic.Rdma.Transfer.{pad_count, Site, read_from_sgl, calculate_packet_count}

pub get_send_opcode-IsListed :
    (f l i : Bool)
    → IsListed (get_send_opcode f l (i && l))
      × (has_immediate_variant (get_send_opcode f l (i && l)) ≡ i && l)
unfolding get_send_opcode has_immediate_variant
get_send_opcode-IsListed true true true = (tt, refl)
get_send_opcode-IsListed true true false = (tt, refl)
get_send_opcode-IsListed true false true = (tt, refl)
get_send_opcode-IsListed true false false = (tt, refl)
get_send_opcode-IsListed false true true = (tt, refl)
get_send_opcode-IsListed false true false = (tt, refl)
get_send_opcode-IsListed false false true = (tt, refl)
get_send_opcode-IsListed false false false = (tt, refl)

pub send_packet-IsWellFormed :
    (wqe : SendWqe) (dest count idx psn : ℕ) (payload : List ℕ)
    → wqe.immediate_data < 2 ^ 32
    → IsWellFormed (send_packet wqe dest count idx psn payload)
unfolding send_packet is_send_imm pad_count set_opcode set_dest_qp set_psn set_pad_count mask_psn
    set_solicited_event set_ack_request set_payload set_immediate new_builder
send_packet-IsWellFormed wqe dest count idx psn payload h =
    let is_last = idx == sub32 count 1 in
    let (listed, variant) = get_send_opcode-IsListed (idx == 0) is_last (is_send_imm wqe.opcode) in
    if-cases IsWellFormed (is_send_imm wqe.opcode && is_last) _ _
      (λ e. record {
        listed = listed;
        listed_syndrome = tt;
        dest_qp_in = omega arith;
        psn_in = omega arith;
        partition_key_in = omega arith;
        pad_count_in = omega arith;
        remote_address_in = omega arith;
        rkey_in = omega arith;
        dma_length_in = omega arith;
        msn_in = omega arith;
        immediate_in = h;
        has_variant = λ v. refl;
      })
      (λ e. record {
        listed = listed;
        listed_syndrome = tt;
        dest_qp_in = omega arith;
        psn_in = omega arith;
        partition_key_in = omega arith;
        pad_count_in = omega arith;
        remote_address_in = omega arith;
        rkey_in = omega arith;
        dma_length_in = omega arith;
        msn_in = omega arith;
        immediate_in = omega arith;
        has_variant = λ v. ground (arith, v, variant, e);
      })

only_opcode-IsListed :
    (i : Bool)
    → IsListed (if i then rc_send_only_imm else rc_send_only)
      × (has_immediate_variant (if i then rc_send_only_imm else rc_send_only) ≡ i)
unfolding has_immediate_variant
only_opcode-IsListed true = (tt, refl)
only_opcode-IsListed false = (tt, refl)

empty_send-payload : (wqe : SendWqe) (dest psn : ℕ) → (empty_send wqe dest psn).payload ≡ []
unfolding empty_send is_send_imm set_opcode set_dest_qp set_psn set_solicited_event set_ack_request
    set_immediate new_builder
empty_send-payload wqe dest psn =
    if-cases (λ (b : RdmaPacketBuilder). b.payload ≡ []) (is_send_imm wqe.opcode) _ _ (λ e. refl)
      (λ e. refl)

empty_send-IsWellFormed :
    (wqe : SendWqe) (dest psn : ℕ)
    → wqe.immediate_data < 2 ^ 32
    → IsWellFormed (empty_send wqe dest psn)
unfolding empty_send is_send_imm set_opcode set_dest_qp set_psn mask_psn set_solicited_event
    set_ack_request set_immediate new_builder
empty_send-IsWellFormed wqe dest psn h =
    let (listed, variant) = only_opcode-IsListed (is_send_imm wqe.opcode) in
    if-cases IsWellFormed (is_send_imm wqe.opcode) _ _
      (λ e. record {
        listed = listed;
        listed_syndrome = tt;
        dest_qp_in = omega arith;
        psn_in = omega arith;
        partition_key_in = omega arith;
        pad_count_in = omega arith;
        remote_address_in = omega arith;
        rkey_in = omega arith;
        dma_length_in = omega arith;
        msn_in = omega arith;
        immediate_in = h;
        has_variant = λ v. refl;
      })
      (λ e. record {
        listed = listed;
        listed_syndrome = tt;
        dest_qp_in = omega arith;
        psn_in = omega arith;
        partition_key_in = omega arith;
        pad_count_in = omega arith;
        remote_address_in = omega arith;
        rkey_in = omega arith;
        dma_length_in = omega arith;
        msn_in = omega arith;
        immediate_in = omega arith;
        has_variant = λ v. ground (arith, v, variant, e);
      })

send_packet-payload :
    (wqe : SendWqe) (dest count idx psn : ℕ) (payload : List ℕ)
    → (send_packet wqe dest count idx psn payload).payload ≡ payload
unfolding send_packet is_send_imm set_opcode set_dest_qp set_psn set_pad_count set_solicited_event
    set_ack_request set_payload set_immediate new_builder
send_packet-payload wqe dest count idx psn payload =
    if-cases (λ (b : RdmaPacketBuilder). b.payload ≡ payload)
      (is_send_imm wqe.opcode && (idx == sub32 count 1)) _ _ (λ e. refl) (λ e. refl)

-- What a parser, in some state, reads as the payload of a packet.
abbrev pub payload_of : BitFields → RdmaPacketParser → List ℕ → List ℕ
payload_of bits p bytes = (parse bits p bytes).1.payload

payload_of-build :
    (bits : BitFields) (law : IsLawful bits) (p : RdmaPacketParser) (b : RdmaPacketBuilder)
    → IsWellFormed b
    → payload_of bits p (build bits b) ≡ b.payload
payload_of-build bits law p b v = ap (λ r. r.1.payload) (parse-build bits p b law v)

module _ (bits : BitFields) (law : IsLawful bits) (p : RdmaPacketParser) (wqe : SendWqe)
    (imm : wqe.immediate_data < 2 ^ 32) where
  payloads-builders :
      (dest count idx psn : ℕ) (cs : List (List ℕ))
      → map (payload_of bits p) (map (build bits) (builders wqe dest count idx psn cs)) ≡ cs
  payloads-builders dest count idx psn [] = refl
  payloads-builders dest count idx psn (c ∷ cs) =
      let b = send_packet wqe dest count idx psn c in
      let first : payload_of bits p (build bits b) ≡ c =
        payload_of-build bits law p b (send_packet-IsWellFormed wqe dest count idx psn c imm)
        ∙ send_packet-payload wqe dest count idx psn c in
      let rest = payloads-builders dest count (idx + 1) (advance_psn psn 1) cs in cc

  segments-payloads :
      (s : Site SendRecvProcessor) (bytes : List ℕ) (mtu count : ℕ)
      → length bytes ≤ count * mtu
      → join (map (payload_of bits p) (send_segments bits wqe bytes mtu count count 0 0 s).packets)
        ≡ bytes
  segments-payloads s bytes mtu count room =
      rw (send_segments-packets bits wqe bytes mtu count count 0 0 s) (
        rw (payloads-builders s.qp.dest_qp_number count 0 s.qp.sq_psn (chunks mtu count bytes))
          (join-chunks mtu count bytes room))

  only-payload :
      (dest psn : ℕ)
      → join (map (payload_of bits p) (build bits (empty_send wqe dest psn) ∷ [])) ≡ []
  unfolding join
  only-payload dest psn =
      rw (payload_of-build bits law p _ (empty_send-IsWellFormed wqe dest psn imm))
        (rw (empty_send-payload wqe dest psn) refl)

  -- The packets of a SEND whose data could be read carry the data: what a parser reads as their payloads,
  -- one after the other, is what the scatter-gather list names. The immediate is a 32-bit number, the length
  -- and the MTU add up to less than 2^32, and the message may be empty.
  pub generate-payloads :
      (s : Site SendRecvProcessor)
      → is_send_wqe wqe.opcode ≡ true
      → length (read_from_sgl s.host wqe.sgl wqe.local_lkey).0 ≡ wqe.total_length
      → wqe.total_length + mtu_bytes s.qp < 2 ^ 32
      → join (map (payload_of bits p) (generate_send_packets bits s wqe).packets)
        ≡ (read_from_sgl s.host wqe.sgl wqe.local_lkey).0
  unfolding generate_send_packets
  generate-payloads s sends read small =
      let bytes = (read_from_sgl s.host wqe.sgl wqe.local_lkey).0 in
      let s1 : Site SendRecvProcessor = record s {
        host = (read_from_sgl s.host wqe.sgl wqe.local_lkey).1;
      } in
      let mtu = mtu_bytes s.qp in
      let count = calculate_packet_count wqe.total_length mtu in
      elim (Bool-cases (wqe.total_length == 0)) [
        | inl empty ↦
            let nothing : bytes ≡ [] = length-zero bytes (ground (arith, read, empty)) in
            let carried = only-payload s.qp.dest_qp_number (next_send_psn s.qp).0 in
            ground (arith, sends, read, empty, carried, nothing)
        | inr nonempty ↦
            let (enough, _, _) =
              packet_count-enough wqe.total_length mtu (mtu_bytes-pos s.qp)
                (ground (arith, nonempty)) small in
            let carried =
              segments-payloads (begin_send s1) bytes mtu count (ground (arith, read, enough)) in
            ground (arith, sends, read, nonempty, carried)
      ]
