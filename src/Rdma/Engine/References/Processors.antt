-- ===== src/Rdma/Engine/References/Processors.antt =====
-- What a processor of src/rocev2 leaves of the queue pair that it is given: its number, its configuration, its
-- state and its peer.
use smart_nic.Base.Assoc.{lookup}
use smart_nic.Rdma.MrTable.{validate_rkey}
use smart_nic.Rdma.Read.Respond.{
  response_segments, generate_read_responses, process_read_request, response_segment, respond,
}
use smart_nic.Rdma.Read.{ReadProcessor, ReadRequestState, read_from_remote, ReadRequestResult}
use smart_nic.Rdma.Write.{WriteProcessor, WriteMessageState, write_to_remote}
use smart_nic.Rdma.BitFields.{BitFields}
use smart_nic.Rdma.Read.Request.{
  response_payload, response_found, process_read_response, accept_response, response_to,
}
use smart_nic.Rdma.Write.Process.{
  notify, count_written, write_payload, write_checked, write_started, process_write_packet,
  write_state, after_packet, begin_message,
}
use smart_nic.Rdma.Read.Request
use smart_nic.Rdma.Wqe.{RecvWqe}
use smart_nic.Rdma.QueuePair.Reliable.{advance_recv_psn, next_send_psn, mtu_bytes}
use smart_nic.Rdma.Transfer.{Site, calculate_packet_count}
use smart_nic.Rdma.SendRecv.{SendRecvProcessor, RecvMessageState}
use smart_nic.Rdma.SendRecv.Process.{
  recv_checked, recv_started, process_recv_packet, recv_payload, put_state, accept_payload,
  recv_state, begin_recv,
}
use smart_nic.Rdma.Packet.Parser.{RdmaPacketParser}
use smart_nic.Rdma.QueuePair.Work.{consume_recv, record_packet_received, record_packet_sent}
use smart_nic.Rdma.QueuePair.{RdmaQueuePair}
use smart_nic.Base.{
  true, false, refl, none, some, ◌≡◌, ◌∙◌, Option, arith, if-cases, add64, List, ℕ, suc, ◌+◌, zero,
  length, ◌==◌, ◌&&◌, ltb,
}
use smart_nic.Rdma.Write.Process as WriteProcess

-- The same queue pair, to those who refer to it.
abbrev pub Keeps : RdmaQueuePair → RdmaQueuePair → Type 0
Keeps q q' =
    (q'.qp_number ≡ q.qp_number)
    × (q'.config ≡ q.config)
    × (q'.state ≡ q.state)
    × (q'.dest_ip ≡ q.dest_ip)
    × (q'.dest_qp_number ≡ q.dest_qp_number)

abbrev pub same : (q : RdmaQueuePair) → Keeps q q
same q = (refl, refl, refl, refl, refl)

pub Keeps-trans : (p q r : RdmaQueuePair) → Keeps p q → Keeps q r → Keeps p r
Keeps-trans p q r h k = (k.0 ∙ h.0, k.1 ∙ h.1, k.2 ∙ h.2, k.3 ∙ h.3, k.4 ∙ h.4)

consume_recv-Keeps : (q : RdmaQueuePair) → Keeps q (consume_recv q).1
unfolding consume_recv
consume_recv-Keeps q = ground arith

module _ (p : RdmaPacketParser) where
  recv_payload-Keeps :
      (s : Site SendRecvProcessor) (st : RecvMessageState) → Keeps s.qp (recv_payload s p st).1.qp
  unfolding recv_payload accept_payload put_state advance_recv_psn record_packet_received
  recv_payload-Keeps s st = ground arith

  recv_checked-Keeps :
      (s : Site SendRecvProcessor) (st : RecvMessageState) → Keeps s.qp (recv_checked s p st).1.qp
  unfolding recv_checked put_state
  recv_checked-Keeps s st = ground (arith, recv_payload-Keeps s st)

  recv_started-Keeps :
      (s : Site SendRecvProcessor) (taken : Option RecvWqe × RdmaQueuePair)
      → Keeps s.qp taken.1
      → Keeps s.qp (recv_started s p taken).1.qp
  unfolding recv_started put_state
  recv_started-Keeps s (none, q) h = h
  recv_started-Keeps s (some w, q) h =
      let s' = record s { qp = q } in
      let st = begin_recv (recv_state s) w p.bth.psn in
      Keeps-trans s.qp q (recv_checked s' p st).1.qp h (recv_checked-Keeps s' st)

  pub process_recv_packet-Keeps :
      (s : Site SendRecvProcessor) → Keeps s.qp (process_recv_packet s p).1.qp
  unfolding process_recv_packet
  process_recv_packet-Keeps s =
      let started = recv_started-Keeps s (consume_recv s.qp) (consume_recv-Keeps s.qp) in
      let checked = recv_checked-Keeps s (recv_state s) in ground (arith, started, checked)

  notify-Keeps :
      (s : Site WriteProcessor) (st : WriteMessageState) (taken : Option RecvWqe × RdmaQueuePair)
      → Keeps s.qp taken.1
      → Keeps s.qp (notify s p st taken).1.qp
  unfolding notify
  notify-Keeps s st (none, q) h = h
  notify-Keeps s st (some w, q) h = h

  accept_write-Keeps :
      (s : Site WriteProcessor) (st : WriteMessageState)
      → Keeps s.qp (WriteProcess.accept_payload s p st).1.qp
  unfolding WriteProcess.accept_payload WriteProcess.put_state count_written advance_recv_psn
      record_packet_received
  accept_write-Keeps s st =
      let s' = WriteProcess.put_state (count_written s p) (after_packet p st) in
      let taken = consume_recv-Keeps s'.qp in
      ground (arith, notify-Keeps s' (after_packet p st) (consume_recv s'.qp) taken)

  write_payload-Keeps :
      (s : Site WriteProcessor) (st : WriteMessageState) → Keeps s.qp (write_payload s p st).1.qp
  unfolding write_payload WriteProcess.put_state
  write_payload-Keeps s st =
      let address = add64 st.remote_address st.bytes_written in
      let host = (write_to_remote s.host address st.rkey s.qp.config.pd_handle p.payload).1 in
      ground (arith, accept_write-Keeps s st, accept_write-Keeps (record s { host = host }) st)

  write_checked-Keeps :
      (s : Site WriteProcessor) (st : WriteMessageState) → Keeps s.qp (write_checked s p st).1.qp
  unfolding write_checked WriteProcess.put_state
  write_checked-Keeps s st = ground (arith, write_payload-Keeps s st)

  write_started-Keeps : (s : Site WriteProcessor) → Keeps s.qp (write_started s p).1.qp
  unfolding write_started WriteProcess.put_state
  write_started-Keeps s =
      let table =
        (validate_rkey s.host.mr_table p.reth.rkey s.qp.config.pd_handle p.reth.virtual_address
          p.reth.dma_length true).1 in
      let s' = record s { host = record (s.host) { mr_table = table } } in
      ground (arith, write_checked-Keeps s' (begin_message (write_state s) p.reth p.bth.psn))

  pub process_write_packet-Keeps :
      (s : Site WriteProcessor) → Keeps s.qp (process_write_packet s p).1.qp
  unfolding process_write_packet
  process_write_packet-Keeps s =
      ground (arith, write_started-Keeps s, write_checked-Keeps s (write_state s))

  response_payload-Keeps :
      (s : Site ReadProcessor) (st : ReadRequestState) → Keeps s.qp (response_payload s p st).1.qp
  unfolding response_payload accept_response Request.put_state record_packet_received
  response_payload-Keeps s st = ground arith

  response_found-Keeps :
      (s : Site ReadProcessor) (found : Option ReadRequestState)
      → Keeps s.qp (response_found s p found).1.qp
  unfolding response_found response_to Request.put_state
  response_found-Keeps s none = same s.qp
  response_found-Keeps s (some st) = ground (arith, response_payload-Keeps s st)

  pub process_read_response-Keeps :
      (s : Site ReadProcessor) → Keeps s.qp (process_read_response s p).1.qp
  unfolding process_read_response
  process_read_response-Keeps s =
      ground (arith, response_found-Keeps s (lookup s.qp.qp_number s.processor.request_states))

module _ (bits : BitFields) where
  response_segments-Keeps :
      (bytes : List ℕ) (mtu count left idx offset : ℕ) (s : Site ReadProcessor)
      → Keeps s.qp (response_segments bits bytes mtu count left idx offset s).site.qp
  unfolding response_segments response_segment next_send_psn record_packet_sent
  response_segments-Keeps bytes mtu count zero idx offset s = same s.qp
  response_segments-Keeps bytes mtu count (suc left) idx offset s =
      response_segments-Keeps bytes mtu count left (idx + 1) _ _

  generate_read_responses-Keeps :
      (s : Site ReadProcessor) (address rkey n : ℕ)
      → Keeps s.qp (generate_read_responses bits s address rkey n).site.qp
  unfolding generate_read_responses next_send_psn record_packet_sent
  generate_read_responses-Keeps s address rkey n =
      let (bytes, host) = read_from_remote s.host address rkey s.qp.config.pd_handle n in
      let mtu = mtu_bytes s.qp in
      let count = calculate_packet_count n mtu in
      ground (arith, response_segments-Keeps bytes mtu count count 0 0 (record s { host = host }))

  respond-Keeps :
      (s : Site ReadProcessor) (p : RdmaPacketParser) → Keeps s.qp (respond bits s p).1.qp
  unfolding respond advance_recv_psn
  respond-Keeps s p =
      let sent =
        generate_read_responses bits (record s { qp = advance_recv_psn s.qp })
          p.reth.virtual_address p.reth.rkey p.reth.dma_length in
      let kept =
        generate_read_responses-Keeps (record s { qp = advance_recv_psn s.qp })
          p.reth.virtual_address p.reth.rkey p.reth.dma_length in
      if-cases (λ (r : ReadRequestResult × Site ReadProcessor). Keeps s.qp r.1.qp)
        ((length sent.packets == 0) && ltb 0 p.reth.dma_length) _ _ (λ e. kept) (λ e. kept)

  pub process_read_request-Keeps :
      (s : Site ReadProcessor) (p : RdmaPacketParser)
      → Keeps s.qp (process_read_request bits s p).1.qp
  unfolding process_read_request
  process_read_request-Keeps s p =
      let table =
        (validate_rkey s.host.mr_table p.reth.rkey s.qp.config.pd_handle p.reth.virtual_address
          p.reth.dma_length false).1 in
      ground (arith, respond-Keeps (record s { host = record (s.host) { mr_table = table } }) p)
