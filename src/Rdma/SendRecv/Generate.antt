-- ===== src/Rdma/SendRecv/Generate.antt =====
-- The sender: `generate_send_packets` and `generate_ack` of src/rocev2/send_recv.cpp.
use smart_nic.Rdma.QueuePair.{RdmaQueuePair}
use smart_nic.Rdma.QueuePair.Work.{record_packet_sent}
use smart_nic.Rdma.QueuePair.Reliable.{next_send_psn, mtu_bytes, add_pending_operation}
use smart_nic.Rdma.Transfer.{Site, read_from_sgl, pad_count, calculate_packet_count, Sent}
use smart_nic.Rdma.Opcode.{
  RdmaOpcode, rc_send_only_imm, rc_send_only, rc_send_first, rc_send_last_imm, rc_ack, rc_send_last,
  rc_send_middle,
}
use smart_nic.Rdma.BitFields.{BitFields}
use smart_nic.Rdma.SendRecv.{SendRecvProcessor, AethSyndrome}
use smart_nic.Rdma.Packet.Builder.{
  set_opcode, set_dest_qp, build, set_psn, set_solicited_event, set_pad_count, set_syndrome,
  set_ack_request, set_msn, set_immediate, set_payload, RdmaPacketBuilder, new_builder,
}
use smart_nic.Rdma.Wqe.{WqeOpcode, SendWqe}
use smart_nic.Base.{
  Bool, List, ℕ, true, add64, if◌then◌else◌, false, ◌&&◌, [], suc, not, slice, length, ◌==◌, min,
  sub32, ◌-◌, ◌∷◌, ◌+◌, zero,
}

unfoldable pub get_send_opcode : Bool → Bool → Bool → RdmaOpcode
get_send_opcode is_first is_last has_immediate =
    if is_first && is_last
    then if has_immediate then rc_send_only_imm else rc_send_only
    else if is_first
    then rc_send_first
    else if is_last
    then if has_immediate then rc_send_last_imm else rc_send_last
    else rc_send_middle

unfoldable pub is_send_wqe : WqeOpcode → Bool
is_send_wqe WqeOpcode.send = true
is_send_wqe WqeOpcode.send_imm = true
is_send_wqe _ = false

unfoldable pub is_send_imm : WqeOpcode → Bool
is_send_imm WqeOpcode.send_imm = true
is_send_imm _ = false

-- The builder of the packet of a message that is empty.
unfoldable pub empty_send : SendWqe → ℕ → ℕ → RdmaPacketBuilder
unfolding is_send_imm set_opcode set_dest_qp set_psn set_solicited_event set_ack_request
    set_immediate
empty_send wqe dest psn =
    let b = set_ack_request true (
      set_solicited_event wqe.solicited (
        set_psn psn (
          set_dest_qp dest (
            set_opcode (if is_send_imm wqe.opcode then rc_send_only_imm else rc_send_only)
              new_builder)))) in
    if is_send_imm wqe.opcode then set_immediate wqe.immediate_data b else b

-- The builder of packet `idx` of `count`.
unfoldable pub send_packet : SendWqe → ℕ → ℕ → ℕ → ℕ → List ℕ → RdmaPacketBuilder
unfolding is_send_imm get_send_opcode pad_count set_opcode set_dest_qp set_psn set_pad_count
    set_solicited_event set_ack_request set_payload set_immediate
send_packet wqe dest count idx psn payload =
    let is_last = idx == sub32 count 1 in
    let immediate = is_send_imm wqe.opcode && is_last in
    let b = set_payload payload (
      set_ack_request is_last (
        set_solicited_event (wqe.solicited && is_last) (
          set_pad_count (if is_last then pad_count (length payload) else 0) (
            set_psn psn (
              set_dest_qp dest
                (set_opcode (get_send_opcode (idx == 0) is_last immediate) new_builder)))))) in
    if immediate then set_immediate wqe.immediate_data b else b

abbrev count_packet : SendRecvProcessor → SendRecvProcessor
count_packet p = record p {
  stats = record (p.stats) { send_packets_generated = add64 (p.stats.send_packets_generated) 1 };
}

abbrev count_bytes : ℕ → SendRecvProcessor → SendRecvProcessor
count_bytes n p = record p {
  stats = record (p.stats) { bytes_sent = add64 (p.stats.bytes_sent) n };
}

-- `++stats_.sends_started`
unfoldable pub begin_send : Site SendRecvProcessor → Site SendRecvProcessor
begin_send s = record s {
  processor = record (s.processor) {
    stats = record (s.processor.stats) {
      sends_started = add64 (s.processor.stats.sends_started) 1;
    };
  };
}

module _ (bits : BitFields) where
  module _ (wqe : SendWqe) (bytes : List ℕ) (mtu count : ℕ) where
    -- The body of the loop.
    unfoldable pub send_segment :
        ℕ → List ℕ → Site SendRecvProcessor → List ℕ × Site SendRecvProcessor
    unfolding next_send_psn record_packet_sent build send_packet
    send_segment idx payload s =
        let (psn, q) = next_send_psn s.qp in
        let packet = build bits (send_packet wqe s.qp.dest_qp_number count idx psn payload) in
        (
          packet,
          record s {
            processor = count_bytes (length payload) (count_packet s.processor);
            qp = record_packet_sent q (length packet);
          },
        )

    -- The loop, with `left` packets to go.
    unfoldable pub send_segments : ℕ → ℕ → ℕ → Site SendRecvProcessor → Sent SendRecvProcessor
    unfolding send_segment
    send_segments zero idx offset s = record { packets = []; site = s }
    send_segments (suc left) idx offset s =
        let payload = slice bytes offset (min mtu (length bytes - offset)) in
        let (packet, s') = send_segment idx payload s in
        let rest = send_segments left (idx + 1) (offset + length payload) s' in
        record rest { packets = packet ∷ rest.packets }

  unfoldable pub generate_send_packets : Site SendRecvProcessor → SendWqe → Sent SendRecvProcessor
  unfolding is_send_wqe begin_send read_from_sgl mtu_bytes calculate_packet_count empty_send
      next_send_psn build add_pending_operation record_packet_sent send_segments
  generate_send_packets s wqe =
      let (bytes, host) = read_from_sgl s.host wqe.sgl wqe.local_lkey in
      let s1 = record s { host = host } in
      let started = begin_send s1 in
      let mtu = mtu_bytes s.qp in
      let count = calculate_packet_count wqe.total_length mtu in
      let (psn, q) = next_send_psn s.qp in
      let only = build bits (empty_send wqe s.qp.dest_qp_number psn) in
      let sent = send_segments wqe bytes mtu count count 0 0 started in
      if not (is_send_wqe wqe.opcode)
      then record { packets = []; site = s }
      else if not (length bytes == wqe.total_length)
      then record { packets = []; site = s1 }
      else if wqe.total_length == 0
      then record {
        packets = only ∷ [];
        site = record started {
          processor = count_packet started.processor;
          qp = record_packet_sent (add_pending_operation q wqe 1) (length only);
        };
      }
      else record {
        packets = sent.packets;
        site = record (sent.site) { qp = add_pending_operation sent.site.qp wqe count };
      }

  unfoldable pub generate_ack : RdmaQueuePair → ℕ → AethSyndrome → ℕ → List ℕ
  unfolding build set_opcode set_dest_qp set_psn set_syndrome set_msn set_ack_request
  generate_ack q psn syndrome msn = build bits (
      set_ack_request false (
        set_msn msn (
          set_syndrome syndrome
            (set_psn psn (set_dest_qp q.dest_qp_number (set_opcode rc_ack new_builder))))))
