-- ===== src/Rdma/Write/Generate.antt =====
-- The requester: `generate_write_packets` of src/rocev2/rdma_write.cpp.
use smart_nic.Rdma.QueuePair.Work.{record_packet_sent}
use smart_nic.Memory.Dma.{SglEntry}
use smart_nic.Rdma.QueuePair.Reliable.{mtu_bytes, next_send_psn, add_pending_operation}
use smart_nic.Rdma.Opcode.{
  RdmaOpcode, rc_write_only_imm, rc_write_only, rc_write_first, rc_write_last_imm, rc_write_last,
  rc_write_middle,
}
use smart_nic.Rdma.BitFields.{BitFields}
use smart_nic.Rdma.Transfer.{
  Site, read_entries, pad_count, HostAccess, calculate_packet_count, Sent,
}
use smart_nic.Rdma.Write.{WriteProcessor}
use smart_nic.Rdma.Packet.Builder.{
  set_opcode, set_dest_qp, set_psn, set_ack_request, set_pad_count, set_remote_address, set_payload,
  build, set_rkey, set_dma_length, set_immediate, RdmaPacketBuilder, new_builder,
}
use smart_nic.Rdma.Wqe.{WqeOpcode, SendWqe}
use smart_nic.Base.{
  true, false, [], Bool, ℕ, add64, if◌then◌else◌, List, ◌&&◌, suc, length, slice, min, not, ◌-◌,
  ◌==◌, ◌+◌, ◌∷◌, sub32, zero,
}

unfoldable pub get_write_opcode : Bool → Bool → Bool → RdmaOpcode
get_write_opcode is_first is_last has_immediate =
    if is_first && is_last
    then if has_immediate then rc_write_only_imm else rc_write_only
    else if is_first
    then rc_write_first
    else if is_last
    then if has_immediate then rc_write_last_imm else rc_write_last
    else rc_write_middle

unfoldable pub is_write_wqe : WqeOpcode → Bool
is_write_wqe WqeOpcode.rdma_write = true
is_write_wqe WqeOpcode.rdma_write_imm = true
is_write_wqe _ = false

unfoldable pub is_write_imm : WqeOpcode → Bool
is_write_imm WqeOpcode.rdma_write_imm = true
is_write_imm _ = false

-- The builder of the packet of a write that is empty.
unfoldable pub empty_write : SendWqe → ℕ → ℕ → RdmaPacketBuilder
unfolding is_write_imm set_opcode set_dest_qp set_psn set_ack_request set_remote_address set_rkey
    set_dma_length set_immediate
empty_write wqe dest psn =
    let b = set_dma_length 0 (
      set_rkey wqe.rkey (
        set_remote_address wqe.remote_address (
          set_ack_request true (
            set_psn psn (
              set_dest_qp dest (
                set_opcode (if is_write_imm wqe.opcode then rc_write_only_imm else rc_write_only)
                  new_builder)))))) in
    if is_write_imm wqe.opcode then set_immediate wqe.immediate_data b else b

-- The builder of packet `idx` of `count`; the first one has the RETH.
unfoldable pub write_packet : SendWqe → ℕ → ℕ → ℕ → ℕ → List ℕ → RdmaPacketBuilder
unfolding is_write_imm get_write_opcode pad_count set_opcode set_dest_qp set_psn set_pad_count
    set_ack_request set_payload set_remote_address set_rkey set_dma_length set_immediate
write_packet wqe dest count idx psn payload =
    let is_last = idx == sub32 count 1 in
    let immediate = is_write_imm wqe.opcode && is_last in
    let b = set_payload payload (
      set_ack_request is_last (
        set_pad_count (if is_last then pad_count (length payload) else 0) (
          set_psn psn (
            set_dest_qp dest
              (set_opcode (get_write_opcode (idx == 0) is_last immediate) new_builder))))) in
    let b' =
      if idx == 0
      then set_dma_length wqe.total_length
          (set_rkey wqe.rkey (set_remote_address wqe.remote_address b))
      else b in
    if immediate then set_immediate wqe.immediate_data b' else b'

abbrev count_packet : WriteProcessor → WriteProcessor
count_packet p = record p {
  stats = record (p.stats) { write_packets_generated = add64 (p.stats.write_packets_generated) 1 };
}

abbrev count_bytes : ℕ → WriteProcessor → WriteProcessor
count_bytes n p = record p {
  stats = record (p.stats) { bytes_written = add64 (p.stats.bytes_written) n };
}

-- `++stats_.writes_started`
unfoldable pub begin_write : Site WriteProcessor → Site WriteProcessor
begin_write s = record s {
  processor = record (s.processor) {
    stats = record (s.processor.stats) {
      writes_started = add64 (s.processor.stats.writes_started) 1;
    };
  };
}

-- `WriteProcessor::read_from_sgl`, the same loop as the SEND processor's.
unfoldable pub read_from_local_sgl : HostAccess → List SglEntry → ℕ → List ℕ × HostAccess
unfolding read_entries
read_from_local_sgl h sgl lkey = read_entries lkey h [] sgl

module _ (bits : BitFields) where
  module _ (wqe : SendWqe) (bytes : List ℕ) (mtu count : ℕ) where
    -- The body of the loop.
    unfoldable pub write_segment : ℕ → List ℕ → Site WriteProcessor → List ℕ × Site WriteProcessor
    unfolding next_send_psn record_packet_sent build write_packet
    write_segment idx payload s =
        let (psn, q) = next_send_psn s.qp in
        let packet = build bits (write_packet wqe s.qp.dest_qp_number count idx psn payload) in
        (
          packet,
          record s {
            processor = count_bytes (length payload) (count_packet s.processor);
            qp = record_packet_sent q (length packet);
          },
        )

    -- The loop, with `left` packets to go.
    unfoldable pub write_segments : ℕ → ℕ → ℕ → Site WriteProcessor → Sent WriteProcessor
    unfolding write_segment
    write_segments zero idx offset s = record { packets = []; site = s }
    write_segments (suc left) idx offset s =
        let payload = slice bytes offset (min mtu (length bytes - offset)) in
        let (packet, s') = write_segment idx payload s in
        let rest = write_segments left (idx + 1) (offset + length payload) s' in
        record rest { packets = packet ∷ rest.packets }

  unfoldable pub generate_write_packets : Site WriteProcessor → SendWqe → Sent WriteProcessor
  unfolding is_write_wqe begin_write read_from_local_sgl mtu_bytes calculate_packet_count
      empty_write next_send_psn build add_pending_operation record_packet_sent write_segments
  generate_write_packets s wqe =
      let (bytes, host) = read_from_local_sgl s.host wqe.sgl wqe.local_lkey in
      let s1 = record s { host = host } in
      let started = begin_write s1 in
      let mtu = mtu_bytes s.qp in
      let count = calculate_packet_count wqe.total_length mtu in
      let (psn, q) = next_send_psn s.qp in
      let only = build bits (empty_write wqe s.qp.dest_qp_number psn) in
      let sent = write_segments wqe bytes mtu count count 0 0 started in
      if not (is_write_wqe wqe.opcode)
      then record { packets = []; site = s }
      else if not (length bytes == wqe.total_length)
      then record { packets = []; site = s1 }
      else if wqe.total_length == 0
      then record {
        packets = only ∷ [];
        site = record started {
          processor = count_packet started.processor;
          qp = record_packet_sent (add_pending_operation q wqe 1) (length only);
        };
      }
      else record {
        packets = sent.packets;
        site = record (sent.site) { qp = add_pending_operation sent.site.qp wqe count };
      }
