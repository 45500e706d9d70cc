-- ===== src/Rdma/Read/Respond.antt =====
-- The responder of a READ: `process_read_request` and `generate_read_responses` of
-- src/rocev2/rdma_read.cpp.
use smart_nic.Rdma.Packet.Parser.{RdmaPacketParser}
use smart_nic.Rdma.Wqe.{ack, nak_remote_access, invalid_request, psn_seq_error}
use smart_nic.Rdma.Transfer.{Site, pad_count, Sent, calculate_packet_count}
use smart_nic.Rdma.QueuePair.Work.{can_receive, record_packet_sent}
use smart_nic.Rdma.QueuePair.Reliable.{advance_recv_psn, next_send_psn, mtu_bytes}
use smart_nic.Rdma.Opcode.{
  RdmaOpcode, opcode_code, rc_read_response_only, rc_read_response_first, rc_read_response_last,
  rc_read_response_middle, rc_read_request,
}
use smart_nic.Rdma.MrTable.{validate_rkey}
use smart_nic.Rdma.Wqe.{AethSyndrome}
use smart_nic.Rdma.BitFields.{BitFields}
use smart_nic.Rdma.Read.{ReadProcessor, read_from_remote, ReadRequestResult}
use smart_nic.Rdma.Packet.Builder.{
  set_opcode, set_dest_qp, set_psn, set_ack_request, set_syndrome, set_pad_count, build, set_msn,
  set_payload, RdmaPacketBuilder, new_builder,
}
use smart_nic.Base.{
  true, false, [], Bool, add64, List, ℕ, if◌then◌else◌, ◌&&◌, suc, length, slice, not, ◌==◌, min,
  ◌∷◌, ltb, sub32, ◌-◌, ◌+◌, zero,
}

unfoldable pub get_read_response_opcode : Bool → Bool → RdmaOpcode
get_read_response_opcode is_first is_last =
    if is_first && is_last
    then rc_read_response_only
    else if is_first
    then rc_read_response_first
    else if is_last
    then rc_read_response_last
    else rc_read_response_middle

-- The builder of the response to an empty request.
unfoldable pub empty_response : ℕ → ℕ → RdmaPacketBuilder
unfolding set_opcode set_dest_qp set_psn set_ack_request set_syndrome set_msn
empty_response dest psn = set_msn 0 (
    set_syndrome ack (
      set_ack_request false
        (set_psn psn (set_dest_qp dest (set_opcode rc_read_response_only new_builder)))))

-- The builder of response `idx` of `count`; the first one has the AETH.
unfoldable pub response_packet : ℕ → ℕ → ℕ → ℕ → List ℕ → RdmaPacketBuilder
unfolding get_read_response_opcode pad_count set_opcode set_dest_qp set_psn set_pad_count
    set_ack_request set_payload set_syndrome set_msn
response_packet dest count idx psn payload =
    let is_last = idx == sub32 count 1 in
    let b = set_payload payload (
      set_ack_request false (
        set_pad_count (if is_last then pad_count (length payload) else 0) (
          set_psn psn (
            set_dest_qp dest
              (set_opcode (get_read_response_opcode (idx == 0) is_last) new_builder))))) in
    if idx == 0 then set_msn 0 (set_syndrome ack b) else b

abbrev count_response : ReadProcessor → ReadProcessor
count_response p = record p {
  stats = record (p.stats) {
    read_responses_generated = add64 (p.stats.read_responses_generated) 1;
  };
}

module _ (bits : BitFields) where
  module _ (bytes : List ℕ) (mtu count : ℕ) where
    -- The body of the loop.
    unfoldable pub response_segment : ℕ → List ℕ → Site ReadProcessor → List ℕ × Site ReadProcessor
    unfolding next_send_psn record_packet_sent build response_packet
    response_segment idx payload s =
        let (psn, q) = next_send_psn s.qp in
        let packet = build bits (response_packet s.qp.dest_qp_number count idx psn payload) in
        (
          packet,
          record s {
            processor = count_response s.processor;
            qp = record_packet_sent q (length packet);
          },
        )

    -- The loop, with `left` packets to go.
    unfoldable pub response_segments : ℕ → ℕ → ℕ → Site ReadProcessor → Sent ReadProcessor
    unfolding response_segment
    response_segments zero idx offset s = record { packets = []; site = s }
    response_segments (suc left) idx offset s =
        let payload = slice bytes offset (min mtu (length bytes - offset)) in
        let (packet, s') = response_segment idx payload s in
        let rest = response_segments left (idx + 1) (offset + length payload) s' in
        record rest { packets = packet ∷ rest.packets }

  -- `generate_read_responses`; the number of the request is not used.
  unfoldable pub generate_read_responses : Site ReadProcessor → ℕ → ℕ → ℕ → Sent ReadProcessor
  unfolding read_from_remote mtu_bytes calculate_packet_count empty_response next_send_psn build
      record_packet_sent response_segments
  generate_read_responses s address rkey n =
      let (bytes, host) = read_from_remote s.host address rkey s.qp.config.pd_handle n in
      let s1 = record s { host = host } in
      let mtu = mtu_bytes s.qp in
      let count = calculate_packet_count n mtu in
      let (psn, q) = next_send_psn s.qp in
      let only = build bits (empty_response s.qp.dest_qp_number psn) in
      let sent = response_segments bytes mtu count count 0 0 s1 in
      if not (length bytes == n)
      then record { packets = []; site = s1 }
      else if n == 0
      then record {
        packets = only ∷ [];
        site = record s1 {
          processor = count_response s.processor;
          qp = record_packet_sent q (length only);
        };
      }
      else sent

  abbrev no_result : ReadRequestResult
  no_result = record {
    success = false;
    needs_nak = false;
    nak_psn = 0;
    syndrome = ack;
    response_packets = [];
  }

  abbrev nak : AethSyndrome → ℕ → ReadRequestResult
  nak syndrome psn = record no_result { syndrome = syndrome; needs_nak = true; nak_psn = psn }

  abbrev count_rkey : Site ReadProcessor → Site ReadProcessor
  count_rkey s = record s {
    processor = record (s.processor) {
      stats = record (s.processor.stats) { rkey_errors = add64 (s.processor.stats.rkey_errors) 1 };
    };
  }

  abbrev count_sequence : Site ReadProcessor → Site ReadProcessor
  count_sequence s = record s {
    processor = record (s.processor) {
      stats = record (s.processor.stats) {
        sequence_errors = add64 (s.processor.stats.sequence_errors) 1;
      };
    };
  }

  abbrev count_access : Site ReadProcessor → Site ReadProcessor
  count_access s = record s {
    processor = record (s.processor) {
      stats = record (s.processor.stats) {
        access_errors = add64 (s.processor.stats.access_errors) 1;
      };
    };
  }

  -- The request is in order, and its range validated.
  unfoldable pub respond :
      Site ReadProcessor → RdmaPacketParser → ReadRequestResult × Site ReadProcessor
  unfolding advance_recv_psn generate_read_responses
  respond s p =
      let sent =
        generate_read_responses (record s { qp = advance_recv_psn s.qp }) p.reth.virtual_address
          p.reth.rkey p.reth.dma_length in
      if (length sent.packets == 0) && ltb 0 p.reth.dma_length
      then (nak nak_remote_access p.bth.psn, count_access sent.site)
      else (record no_result { success = true; response_packets = sent.packets }, sent.site)

  unfoldable pub process_read_request :
      Site ReadProcessor → RdmaPacketParser → ReadRequestResult × Site ReadProcessor
  unfolding can_receive validate_rkey respond opcode_code
  process_read_request s p =
      let (valid, table) =
        validate_rkey s.host.mr_table p.reth.rkey s.qp.config.pd_handle p.reth.virtual_address
          p.reth.dma_length false in
      let s' = record s { host = record (s.host) { mr_table = table } } in
      if not (opcode_code p.bth.opcode == opcode_code rc_read_request)
      then (no_result, s)
      else if not (can_receive s.qp)
      then (nak invalid_request p.bth.psn, s)
      else if not (p.bth.psn == s.qp.rq_psn)
      then (nak psn_seq_error s.qp.rq_psn, count_sequence s)
      else if not p.has_reth
      then (nak invalid_request p.bth.psn, s)
      else if not valid
      then (nak nak_remote_access p.bth.psn, count_rkey s')
      else respond s' p
