-- ===== src/Rdma/Engine/Posting/Generators.antt =====
-- What the packet generators of src/rocev2 leave of the queue pair: it stays who it is, and its next sequence
-- number is ahead by the number of packets.
use smart_nic.Rdma.Read.{ReadProcessor}
use smart_nic.Rdma.Write.{WriteProcessor}
use smart_nic.Rdma.Engine.Posting.{
  generate, by_send, by_write, by_read, RdmaEngine, WqeOpcode, is_send_wqe,
}
use smart_nic.Rdma.Read.Request.{generate_read_request, is_read_wqe}
use smart_nic.Rdma.Write.Generate.{
  write_segments, generate_write_packets, write_segment, begin_write, read_from_local_sgl,
  is_write_wqe,
}
use smart_nic.Rdma.SendRecv.{SendRecvProcessor}
use smart_nic.Rdma.Transfer.{Site, read_from_sgl, Sent, calculate_packet_count}
use smart_nic.Rdma.Wqe.{SendWqe}
use smart_nic.Rdma.QueuePair.Work.{record_packet_sent}
use smart_nic.Rdma.QueuePair.Reliable.{next_send_psn, add_pending_operation, mtu_bytes}
use smart_nic.Rdma.SendRecv.Generate.{
  send_segments, send_segment, generate_send_packets, begin_send,
}
use smart_nic.Rdma.BitFields.{BitFields}
use smart_nic.Rdma.Psn.{advance_psn, psn_count}
use smart_nic.Rdma.QueuePair.{RdmaQueuePair}
use smart_nic.Base.{
  refl, ℕ, arith, ◌<◌, ◌≡◌, suc, List, length, slice, min, ◌-◌, ◌+◌, zero, if-cases, not, ◌==◌,
}
use smart_nic.Rdma.Engine.References.Processors.{Keeps, same, Keeps-trans}

abbrev pub Numbers : RdmaQueuePair → RdmaQueuePair → ℕ → Type 0
Numbers q q' n = Keeps q q' × (q.sq_psn < psn_count → q'.sq_psn ≡ advance_psn q.sq_psn n)

Numbers-zero : (q : RdmaQueuePair) → Numbers q q 0
unfolding advance_psn
Numbers-zero q = (same q, λ b. omega arith)

-- A packet, and `n` more.
Numbers-suc :
    (q r s : RdmaQueuePair) (n : ℕ)
    → Keeps q r
    → r.sq_psn ≡ advance_psn q.sq_psn 1
    → Numbers r s n
    → Numbers q s (suc n)
unfolding advance_psn
Numbers-suc q r s n k e h = (
  Keeps-trans q r s k h.0,
  λ b.
      let small : r.sq_psn < psn_count = omega arith in let next = h.1 small in omega (arith, next),
)

module _ (bits : BitFields) where
  send_segments-Numbers :
      (wqe : SendWqe) (bytes : List ℕ) (mtu count left idx offset : ℕ) (s : Site SendRecvProcessor)
      → let sent = send_segments bits wqe bytes mtu count left idx offset s in
        Numbers s.qp sent.site.qp (length sent.packets)
  unfolding send_segments send_segment next_send_psn record_packet_sent
  send_segments-Numbers wqe bytes mtu count zero idx offset s = Numbers-zero s.qp
  send_segments-Numbers wqe bytes mtu count (suc left) idx offset s =
      let payload = slice bytes offset (min mtu (length bytes - offset)) in
      let s' = (send_segment bits wqe bytes mtu count idx payload s).1 in
      let rest =
        send_segments bits wqe bytes mtu count left (idx + 1) (offset + length payload) s' in
      Numbers-suc s.qp s'.qp rest.site.qp (length rest.packets) (same s.qp) refl
        (send_segments-Numbers wqe bytes mtu count left (idx + 1) (offset + length payload) s')

  write_segments-Numbers :
      (wqe : SendWqe) (bytes : List ℕ) (mtu count left idx offset : ℕ) (s : Site WriteProcessor)
      → let sent = write_segments bits wqe bytes mtu count left idx offset s in
        Numbers s.qp sent.site.qp (length sent.packets)
  unfolding write_segments write_segment next_send_psn record_packet_sent
  write_segments-Numbers wqe bytes mtu count zero idx offset s = Numbers-zero s.qp
  write_segments-Numbers wqe bytes mtu count (suc left) idx offset s =
      let payload = slice bytes offset (min mtu (length bytes - offset)) in
      let s' = (write_segment bits wqe bytes mtu count idx payload s).1 in
      let rest =
        write_segments bits wqe bytes mtu count left (idx + 1) (offset + length payload) s' in
      Numbers-suc s.qp s'.qp rest.site.qp (length rest.packets) (same s.qp) refl
        (write_segments-Numbers wqe bytes mtu count left (idx + 1) (offset + length payload) s')

  generate_send_packets-Numbers :
      (s : Site SendRecvProcessor) (wqe : SendWqe)
      → let sent = generate_send_packets bits s wqe in
        Numbers s.qp sent.site.qp (length sent.packets)
  unfolding generate_send_packets next_send_psn record_packet_sent add_pending_operation begin_send
  generate_send_packets-Numbers s wqe =
      let (bytes, host) = read_from_sgl s.host wqe.sgl wqe.local_lkey in
      let mtu = mtu_bytes s.qp in
      let count = calculate_packet_count wqe.total_length mtu in
      let started = begin_send (record s { host = host }) in
      let rest = send_segments-Numbers wqe bytes mtu count count 0 0 started in
      let P : Sent SendRecvProcessor → Type 0 = λ r. Numbers s.qp r.site.qp (length r.packets) in
      if-cases P (not (is_send_wqe wqe.opcode)) _ _ (λ e. Numbers-zero s.qp)
        (λ e.
          if-cases P (not (length bytes == wqe.total_length)) _ _ (λ e. Numbers-zero s.qp)
            (λ e. if-cases P (wqe.total_length == 0) _ _ (λ e. (same s.qp, λ b. refl)) (λ e. rest)))

  generate_write_packets-Numbers :
      (s : Site WriteProcessor) (wqe : SendWqe)
      → let sent = generate_write_packets bits s wqe in
        Numbers s.qp sent.site.qp (length sent.packets)
  unfolding generate_write_packets next_send_psn record_packet_sent add_pending_operation
      begin_write
  generate_write_packets-Numbers s wqe =
      let (bytes, host) = read_from_local_sgl s.host wqe.sgl wqe.local_lkey in
      let mtu = mtu_bytes s.qp in
      let count = calculate_packet_count wqe.total_length mtu in
      let started = begin_write (record s { host = host }) in
      let rest = write_segments-Numbers wqe bytes mtu count count 0 0 started in
      let P : Sent WriteProcessor → Type 0 = λ r. Numbers s.qp r.site.qp (length r.packets) in
      if-cases P (not (is_write_wqe wqe.opcode)) _ _ (λ e. Numbers-zero s.qp)
        (λ e.
          if-cases P (not (length bytes == wqe.total_length)) _ _ (λ e. Numbers-zero s.qp)
            (λ e. if-cases P (wqe.total_length == 0) _ _ (λ e. (same s.qp, λ b. refl)) (λ e. rest)))

  generate_read_request-Numbers :
      (s : Site ReadProcessor) (wqe : SendWqe)
      → let sent = generate_read_request bits s wqe in
        Numbers s.qp sent.site.qp (length sent.packets)
  unfolding generate_read_request next_send_psn record_packet_sent add_pending_operation
  generate_read_request-Numbers s wqe =
      if-cases (λ (r : Sent ReadProcessor). Numbers s.qp r.site.qp (length r.packets))
        (not (is_read_wqe wqe.opcode)) _ _ (λ e. Numbers-zero s.qp) (λ e. (same s.qp, λ b. refl))

module _ {D : Type 0} (bits : BitFields) where
  pub generate-Numbers :
      (e : RdmaEngine D) (q : RdmaQueuePair) (wqe : SendWqe) (opcode : WqeOpcode)
      → let g = generate bits e q wqe opcode in Numbers q g.qp (length g.packets)
  unfolding generate by_send by_write by_read
  generate-Numbers e q wqe WqeOpcode.send =
      generate_send_packets-Numbers bits
        (record { processor = e.send_recv_processor; host = e.host; qp = q }) wqe
  generate-Numbers e q wqe WqeOpcode.send_imm =
      generate_send_packets-Numbers bits
        (record { processor = e.send_recv_processor; host = e.host; qp = q }) wqe
  generate-Numbers e q wqe WqeOpcode.rdma_write =
      generate_write_packets-Numbers bits
        (record { processor = e.write_processor; host = e.host; qp = q }) wqe
  generate-Numbers e q wqe WqeOpcode.rdma_write_imm =
      generate_write_packets-Numbers bits
        (record { processor = e.write_processor; host = e.host; qp = q }) wqe
  generate-Numbers e q wqe WqeOpcode.rdma_read =
      generate_read_request-Numbers bits
        (record { processor = e.read_processor; host = e.host; qp = q }) wqe
