-- ===== src/Rdma/Engine/Incoming.antt =====
-- `process_incoming_packet` of `RdmaEngine` of src/rocev2/engine.cpp and its handlers, a function for each. The
-- logged addresses and ports of the datagram are left out.
use smart_nic.Rdma.Opcode.{RdmaOpcode}
use smart_nic.Rdma.Congestion.{Floats}
use smart_nic.Rdma.Reliability.Nak.{process_nak}
use smart_nic.Rdma.QueuePair.Work.{modify}
use smart_nic.Rdma.Read.Respond.{process_read_request}
use smart_nic.Rdma.Write.Process.{process_write_packet}
use smart_nic.Rdma.SendRecv.Process.{process_recv_packet}
use smart_nic.Rdma.Packet.Builder.{
  build, set_opcode, set_dest_qp, set_psn, set_ack_request, set_syndrome, set_msn, new_builder,
}
use smart_nic.Rdma.Congestion.Flow.{handle_cnp_received}
use smart_nic.Rdma.Reliability.{process_ack}
use smart_nic.Rdma.Engine.{
  deliver_cqe, RdmaEngine, queue_outgoing_packet, RdmaCqe, RdmaQueuePair, put_qp, count_sent,
  count_error,
}
use smart_nic.Rdma.Read.Request.{process_read_response}
use smart_nic.Rdma.BitFields.{BitFields}
use smart_nic.Rdma.QueuePair.{RdmaQpModifyParams}
use smart_nic.Rdma.Packet.Parser.{RdmaPacketParser}
use smart_nic.Base.{
  true, false, refl, none, some, [], ◌∷◌, ℕ, Bool, Option, List, if◌then◌else◌, not,
}
use smart_nic.Rdma.Wqe.{ack, success, error, AethSyndrome, WqeStatus, WqeOpcode}
pub mod Dispatch
pub mod Acked

-- A parser before it has parsed.
abbrev pub new_parser : RdmaPacketParser
new_parser = record {
  bth = record {
    opcode = RdmaOpcode.rc_send_first;
    solicited_event = false;
    mig_req = false;
    pad_count = 0;
    transport_version = 0;
    partition_key = 0;
    fecn = false;
    becn = false;
    dest_qp = 0;
    ack_request = false;
    psn = 0;
  };
  reth = record { virtual_address = 0; rkey = 0; dma_length = 0 };
  aeth = record { syndrome = ack; msn = 0 };
  immediate = 0;
  payload = [];
  has_reth = false;
  has_aeth = false;
  has_immediate = false;
}

unfoldable pub is_ack : AethSyndrome → Bool
is_ack ack = true
is_ack _ = false

abbrev pub ack_cqe : ℕ → ℕ → WqeStatus → RdmaCqe
ack_cqe wr_id qp_number status = record {
  wr_id = wr_id;
  status = status;
  opcode = WqeOpcode.send;
  qp_number = qp_number;
  bytes_completed = 0;
  immediate_data = 0;
  has_immediate = false;
  is_send = true;
}

abbrev pub to_error : RdmaQpModifyParams
to_error = record {
  target_state = some error;
  dest_qp_number = none;
  dest_ip = none;
  dest_port = none;
  sq_psn = none;
  rq_psn = none;
  path_mtu = none;
}

module _ {D : Type 0} where
  -- The loop over the response packets.
  unfoldable pub queue_responses : RdmaEngine D → RdmaQueuePair → List (List ℕ) → RdmaEngine D
  unfolding queue_outgoing_packet
  queue_responses e q [] = e
  queue_responses e q (packet ∷ packets) =
      queue_responses (count_sent (queue_outgoing_packet e packet q) 1) q packets

module _ {D : Type 0} (bits : BitFields) where
  unfoldable pub generate_ack : RdmaEngine D → RdmaQueuePair → ℕ → AethSyndrome → RdmaEngine D
  unfolding build set_opcode set_dest_qp set_psn set_ack_request set_syndrome set_msn new_builder
      queue_outgoing_packet
  generate_ack e q psn syndrome =
      let packet = build bits (
        set_msn 0 (
          set_syndrome syndrome (
            set_ack_request false (
              set_psn psn
                (set_dest_qp q.dest_qp_number (set_opcode RdmaOpcode.rc_ack new_builder)))))) in
      count_sent (queue_outgoing_packet e packet q) 1

  unfoldable pub generate_nak : RdmaEngine D → RdmaQueuePair → ℕ → AethSyndrome → RdmaEngine D
  unfolding generate_ack
  generate_nak e q psn syndrome = generate_ack e q psn syndrome

  -- How `process_send_packet` and `process_write_packet` go on: with the processor's success, its answer and its
  -- completion.
  unfoldable pub answer :
      RdmaEngine D → RdmaQueuePair → Bool → Bool → ℕ → AethSyndrome → Option RdmaCqe → RdmaEngine D
  unfolding is_ack generate_nak generate_ack deliver_cqe
  answer e q succeeded needs_ack psn syndrome cqe =
      let acked = if needs_ack then generate_ack e q psn syndrome else e in
      if not succeeded
      then if not (is_ack syndrome) then generate_nak e q psn syndrome else e
      else elim cqe [ none ↦ acked | some entry ↦ deliver_cqe acked q.config.recv_cq_number entry ]

  unfoldable pub process_send_packet :
      RdmaEngine D → ℕ → RdmaQueuePair → RdmaPacketParser → RdmaEngine D
  unfolding process_recv_packet answer
  process_send_packet e key q p =
      let (result, site) =
        process_recv_packet (record { processor = e.send_recv_processor; host = e.host; qp = q })
          p in
      answer
        (put_qp (record e { send_recv_processor = site.processor; host = site.host }) key site.qp)
        site.qp result.success result.needs_ack result.ack_psn result.syndrome result.cqe

  unfoldable pub process_write : RdmaEngine D → ℕ → RdmaQueuePair → RdmaPacketParser → RdmaEngine D
  unfolding process_write_packet answer
  process_write e key q p =
      let (result, site) =
        process_write_packet (record { processor = e.write_processor; host = e.host; qp = q }) p in
      answer (put_qp (record e { write_processor = site.processor; host = site.host }) key site.qp)
        site.qp result.success result.needs_ack result.ack_psn result.syndrome result.recv_cqe

  unfoldable pub process_read_request_packet :
      RdmaEngine D → ℕ → RdmaQueuePair → RdmaPacketParser → RdmaEngine D
  unfolding process_read_request generate_nak queue_responses
  process_read_request_packet e key q p =
      let (result, site) =
        process_read_request bits (record { processor = e.read_processor; host = e.host; qp = q })
          p in
      let e' =
        put_qp (record e { read_processor = site.processor; host = site.host }) key site.qp in
      if result.needs_nak
      then generate_nak e' site.qp result.nak_psn result.syndrome
      else queue_responses e' site.qp result.response_packets

module _ {D : Type 0} where
  unfoldable pub process_read_response_packet :
      RdmaEngine D → ℕ → RdmaQueuePair → RdmaPacketParser → RdmaEngine D
  unfolding process_read_response deliver_cqe
  process_read_response_packet e key q p =
      let (result, site) =
        process_read_response (record { processor = e.read_processor; host = e.host; qp = q }) p in
      let e' =
        put_qp (record e { read_processor = site.processor; host = site.host }) key site.qp in
      if not result.success then count_error e' else elim result.cqe [
        | none ↦ e'
        | some entry ↦ deliver_cqe e' (site.qp.config.send_cq_number) entry
      ]

  -- The loop over the completed work requests.
  unfoldable pub deliver_all : RdmaEngine D → RdmaQueuePair → List ℕ → RdmaEngine D
  unfolding deliver_cqe
  deliver_all e q [] = e
  deliver_all e q (wr_id ∷ wr_ids) =
      deliver_all (deliver_cqe e q.config.send_cq_number (ack_cqe wr_id q.qp_number success)) q
        wr_ids

  -- The end of the negative branch: a fatal status is delivered, and stops the queue pair.
  unfoldable pub fail_with : RdmaEngine D → ℕ → RdmaQueuePair → Option WqeStatus → RdmaEngine D
  unfolding deliver_cqe modify
  fail_with e key q none = e
  fail_with e key q (some status) =
      put_qp (deliver_cqe e q.config.send_cq_number (ack_cqe 0 q.qp_number status)) key
        (modify q to_error).1

  unfoldable pub process_ack_packet :
      RdmaEngine D → ℕ → RdmaQueuePair → RdmaPacketParser → RdmaEngine D
  unfolding is_ack process_ack process_nak deliver_all fail_with
  process_ack_packet e key q p =
      let (acked, acked_manager) = process_ack e.reliability_manager q.qp_number p.bth.psn in
      let (refused, refused_manager) =
        process_nak e.reliability_manager q.qp_number p.bth.psn p.aeth.syndrome in
      if is_ack p.aeth.syndrome
      then deliver_all (record e { reliability_manager = acked_manager }) q acked.completed_wr_ids
      else fail_with (record e { reliability_manager = refused_manager }) key q refused.error_status

  unfoldable pub process_cnp_packet : Floats D → RdmaEngine D → RdmaQueuePair → RdmaEngine D
  unfolding handle_cnp_received
  process_cnp_packet fl e q = record e {
    congestion_manager = handle_cnp_received fl e.congestion_manager q.qp_number 0;
  }
