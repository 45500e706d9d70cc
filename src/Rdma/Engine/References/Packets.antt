-- ===== src/Rdma/Engine/References/Packets.antt =====
-- The handlers of incoming packets of src/rocev2/engine.cpp keep the links between queue pairs and completion queues.
use smart_nic.Rdma.Engine.References.Answers.{
  queue_responses-Preserves, deliver_all-Preserves, fail_with-Preserves, generate_ack-Preserves,
  answer-Preserves,
}
use smart_nic.Rdma.Reliability.Nak.{process_nak}
use smart_nic.Rdma.Read.Request.{process_read_response}
use smart_nic.Rdma.Read.Respond.{process_read_request}
use smart_nic.Rdma.Write.Process.{process_write_packet}
use smart_nic.Rdma.Reliability.{process_ack}
use smart_nic.Rdma.Read.{ReadProcessor}
use smart_nic.Rdma.Write.{WriteProcessor}
use smart_nic.Rdma.Congestion.{Floats, is_congestion_marked, generate_cnp}
use smart_nic.Rdma.Engine.References.Processors.{
  process_recv_packet-Keeps, process_write_packet-Keeps, process_read_request-Keeps,
  process_read_response-Keeps,
}
use smart_nic.Rdma.SendRecv.Process.{process_recv_packet}
use smart_nic.Rdma.SendRecv.{SendRecvProcessor}
use smart_nic.Rdma.Transfer.{Site}
use smart_nic.Rdma.Packet.Parser.{RdmaPacketParser}
use smart_nic.Rdma.Engine.References.{
  Preserves, same_tables, Preserves-trans, deliver_cqe-Preserves, Preserves-refl, handled,
}
use smart_nic.Rdma.Wqe.{RdmaCqe}
use smart_nic.Base.Assoc.{lookup}
use smart_nic.Rdma.Engine.{RdmaEngine, queue_outgoing_packet, deliver_cqe, put_qp, count_error}
use smart_nic.Rdma.Engine.Incoming.{
  generate_ack, generate_nak, process_send_packet, is_ack, queue_responses, deliver_all, fail_with,
  process_write, process_read_request_packet, process_read_response_packet, process_ack_packet,
  process_cnp_packet,
}
use smart_nic.Rdma.QueuePair.{RdmaQueuePair}
use smart_nic.Rdma.BitFields.{BitFields}
use smart_nic.Base.{
  refl, none, some, ℕ, ◌≡◌, Option, if-cases, not, Option-cases, inl, List, inr, ◌∙◌, ap,
}
use smart_nic.Rdma.Engine.Incoming.Dispatch.{
  send_packet, write_packet, read_request, read_response, ack_packet, cnp_packet, other_packet,
  notify_sender, dispatch, PacketKind, process_parsed, count_received, kind_of,
}

module _ {D : Type 0} (bits : BitFields) where
  module _ (e : RdmaEngine D) (key : ℕ) (q : RdmaQueuePair) (found : lookup key e.qps ≡ some q)
      (p : RdmaPacketParser) where
    process_send_packet-Preserves : Preserves e (process_send_packet bits e key q p)
    unfolding process_send_packet
    process_send_packet-Preserves =
        let s : Site SendRecvProcessor = record {
          processor = e.send_recv_processor;
          host = e.host;
          qp = q;
        } in
        let (result, site) = process_recv_packet s p in
        let kept = process_recv_packet-Keeps p s in
        let e' = record e { send_recv_processor = site.processor; host = site.host } in
        Preserves-trans e (put_qp e' key site.qp) (process_send_packet bits e key q p)
          (handled e e' key q site.qp refl refl found kept.0 kept.1)
          (answer-Preserves bits (put_qp e' key site.qp) site.qp result.success result.needs_ack
            result.ack_psn result.syndrome result.cqe)

    process_write-Preserves : Preserves e (process_write bits e key q p)
    unfolding process_write
    process_write-Preserves =
        let s : Site WriteProcessor = record {
          processor = e.write_processor;
          host = e.host;
          qp = q;
        } in
        let (result, site) = process_write_packet s p in
        let kept = process_write_packet-Keeps p s in
        let e' = record e { write_processor = site.processor; host = site.host } in
        Preserves-trans e (put_qp e' key site.qp) (process_write bits e key q p)
          (handled e e' key q site.qp refl refl found kept.0 kept.1)
          (answer-Preserves bits (put_qp e' key site.qp) site.qp result.success result.needs_ack
            result.ack_psn result.syndrome result.recv_cqe)

    process_read_request_packet-Preserves : Preserves e (process_read_request_packet bits e key q p)
    unfolding process_read_request_packet generate_nak
    process_read_request_packet-Preserves =
        let s : Site ReadProcessor = record {
          processor = e.read_processor;
          host = e.host;
          qp = q;
        } in
        let (result, site) = process_read_request bits s p in
        let kept = process_read_request-Keeps bits s p in
        let e' = record e { read_processor = site.processor; host = site.host } in
        let f = put_qp e' key site.qp in
        Preserves-trans e f (process_read_request_packet bits e key q p)
          (handled e e' key q site.qp refl refl found kept.0 kept.1)
          (if-cases (Preserves f) result.needs_nak
            (generate_ack bits f site.qp result.nak_psn result.syndrome)
            (queue_responses f site.qp result.response_packets)
            (λ c. generate_ack-Preserves bits f site.qp result.nak_psn result.syndrome)
            (λ c. queue_responses-Preserves f site.qp result.response_packets))

    process_read_response_packet-Preserves : Preserves e (process_read_response_packet e key q p)
    unfolding process_read_response_packet
    process_read_response_packet-Preserves =
        let s : Site ReadProcessor = record {
          processor = e.read_processor;
          host = e.host;
          qp = q;
        } in
        let (result, site) = process_read_response s p in
        let kept = process_read_response-Keeps p s in
        let e' = record e { read_processor = site.processor; host = site.host } in
        let f = put_qp e' key site.qp in
        Preserves-trans e f (process_read_response_packet e key q p)
          (handled e e' key q site.qp refl refl found kept.0 kept.1)
          (if-cases (Preserves f) (not result.success) (count_error f) _
            (λ c. same_tables f (count_error f) refl refl)
            (λ c. delivered f site.qp.config.send_cq_number result.cqe))
      where
        delivered :
            (f : RdmaEngine D) (cq : ℕ) (cqe : Option RdmaCqe)
            → Preserves f (elim cqe [ none ↦ f | some entry ↦ deliver_cqe f cq entry ])
        delivered f cq none = Preserves-refl f
        delivered f cq (some entry) = deliver_cqe-Preserves f cq entry

    process_ack_packet-Preserves : Preserves e (process_ack_packet e key q p)
    unfolding process_ack_packet
    process_ack_packet-Preserves =
        let (acked, acked_manager) = process_ack e.reliability_manager q.qp_number p.bth.psn in
        let (refused, refused_manager) =
          process_nak e.reliability_manager q.qp_number p.bth.psn p.aeth.syndrome in
        let a = record e { reliability_manager = acked_manager } in
        let r = record e { reliability_manager = refused_manager } in
        if-cases (Preserves e) (is_ack p.aeth.syndrome) (deliver_all a q acked.completed_wr_ids)
          (fail_with r key q refused.error_status)
          (λ c.
            Preserves-trans e a (deliver_all a q acked.completed_wr_ids) (same_tables e a refl refl)
              (deliver_all-Preserves a q acked.completed_wr_ids))
          (λ c.
            Preserves-trans e r (fail_with r key q refused.error_status) (same_tables e r refl refl)
              (fail_with-Preserves r key q found refused.error_status))

module _ {D : Type 0} (fl : Floats D) (bits : BitFields) where
  notify_sender-Preserves :
      (e : RdmaEngine D) (q : RdmaQueuePair) (n : ℕ)
      → ((notify_sender fl bits e q n).qps ≡ e.qps) × ((notify_sender fl bits e q n).cqs ≡ e.cqs)
  unfolding notify_sender queue_outgoing_packet is_congestion_marked
  notify_sender-Preserves e q n =
      let (packet, manager) = generate_cnp bits e.congestion_manager n 0 in
      notified (record e { congestion_manager = manager }) packet
    where
      notified :
          (f : RdmaEngine D) (packet : Option (List ℕ))
          → let g : RdmaEngine D = elim packet [
            | none ↦ f
            | some bytes ↦ queue_outgoing_packet f bytes q
          ] in
            (g.qps ≡ f.qps) × (g.cqs ≡ f.cqs)
      notified f none = (refl, refl)
      notified f (some bytes) = (refl, refl)

  dispatch-Preserves :
      (kind : PacketKind) (e : RdmaEngine D) (key : ℕ) (q : RdmaQueuePair) (p : RdmaPacketParser)
      → lookup key e.qps ≡ some q
      → Preserves e (dispatch fl bits kind e key q p).1
  unfolding dispatch process_cnp_packet
  dispatch-Preserves send_packet e key q p found =
      process_send_packet-Preserves bits e key q found p
  dispatch-Preserves write_packet e key q p found = process_write-Preserves bits e key q found p
  dispatch-Preserves read_request e key q p found =
      process_read_request_packet-Preserves bits e key q found p
  dispatch-Preserves read_response e key q p found =
      process_read_response_packet-Preserves bits e key q found p
  dispatch-Preserves ack_packet e key q p found = process_ack_packet-Preserves bits e key q found p
  dispatch-Preserves cnp_packet e key q p found = same_tables e _ refl refl
  dispatch-Preserves other_packet e key q p found = same_tables e _ refl refl

  -- An incoming packet keeps the links.
  pub process_parsed-Preserves :
      (e : RdmaEngine D) (n : ℕ) (p : RdmaPacketParser)
      → Preserves e (process_parsed fl bits e n p).1
  unfolding process_parsed
  process_parsed-Preserves e n p = elim (Option-cases (lookup p.bth.dest_qp e.qps)) [
    | inl missing ↦ rw (process_parsed, missing) (same_tables e (count_error e) refl refl)
    | inr (q, found) ↦
        let noted = notify_sender-Preserves e q p.bth.dest_qp in
        let f = count_received (notify_sender fl bits e q p.bth.dest_qp) n in
        rw (process_parsed, found)
          (Preserves-trans e f (dispatch fl bits (kind_of p.bth.opcode) f p.bth.dest_qp q p).1
            (same_tables e f noted.1 noted.0)
            (dispatch-Preserves (kind_of p.bth.opcode) f p.bth.dest_qp q p
              (ap (lookup p.bth.dest_qp) noted.0 ∙ found)))
  ]
