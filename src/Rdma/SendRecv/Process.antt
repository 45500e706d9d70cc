-- ===== src/Rdma/SendRecv/Process.antt =====
-- The receiver: `process_recv_packet` of src/rocev2/send_recv.cpp.
use smart_nic.Rdma.QueuePair.{RdmaQueuePair}
use smart_nic.Rdma.Packet.Parser.{RdmaPacketParser}
use smart_nic.Rdma.QueuePair.Reliable.{advance_recv_psn}
use smart_nic.Rdma.QueuePair.Work.{can_receive, consume_recv, record_packet_received}
use smart_nic.Rdma.Psn.{advance_psn}
use smart_nic.Base.{
  ℕ, Bool, true, some, add64, false, if◌then◌else◌, ◌||◌, Option, add32, not, none, ◌==◌, length,
  ◌&&◌,
}
use smart_nic.Rdma.SendRecv.{
  RecvMessageState, RecvResult, SendRecvProcessor, RdmaCqe, no_result, no_message, ack,
}
use smart_nic.Rdma.Transfer.{Site, write_to_sgl}
use smart_nic.Base.Assoc.{lookup, insert}
use smart_nic.Rdma.Wqe.{
  AethSyndrome, RecvWqe, success, WqeOpcode, invalid_request, rnr_nak, psn_seq_error,
  nak_remote_access,
}
use smart_nic.Rdma.Opcode.{
  RdmaOpcode, opcode_is_first, opcode_is_only, opcode_is_last, rc_send_first, rc_send_middle,
  rc_send_last, rc_send_last_imm, rc_send_only, rc_send_only_imm,
}

unfoldable pub is_send : RdmaOpcode → Bool
is_send rc_send_first = true
is_send rc_send_middle = true
is_send rc_send_last = true
is_send rc_send_last_imm = true
is_send rc_send_only = true
is_send rc_send_only_imm = true
is_send _ = false

abbrev pub nak : AethSyndrome → ℕ → RecvResult
nak syndrome psn = record no_result { syndrome = syndrome; needs_ack = true; ack_psn = psn }

-- `recv_states_[qp_number]`, which the map makes when it is missing.
unfoldable pub recv_state : Site SendRecvProcessor → RecvMessageState
unfolding lookup
recv_state s = elim (lookup s.qp.qp_number s.processor.recv_states) [
  | some found ↦ found
  | none ↦ no_message
]

unfoldable pub put_state : Site SendRecvProcessor → RecvMessageState → Site SendRecvProcessor
unfolding insert
put_state s st = record s {
  processor = record (s.processor) {
    recv_states = insert s.qp.qp_number st s.processor.recv_states;
  };
}

abbrev count_rnr : Site SendRecvProcessor → Site SendRecvProcessor
count_rnr s = record s {
  processor = record (s.processor) {
    stats = record (s.processor.stats) {
      rnr_naks_sent = add64 (s.processor.stats.rnr_naks_sent) 1;
    };
  };
}

abbrev pub count_sequence : Site SendRecvProcessor → Site SendRecvProcessor
count_sequence s = record s {
  processor = record (s.processor) {
    stats = record (s.processor.stats) {
      sequence_errors = add64 (s.processor.stats.sequence_errors) 1;
    };
  };
}

-- The state of a message that starts.
unfoldable pub begin_recv : RecvMessageState → RecvWqe → ℕ → RecvMessageState
begin_recv st w psn = record st {
  wr_id = w.wr_id;
  sgl = w.sgl;
  bytes_received = 0;
  expected_psn = psn;
  current_sge_idx = 0;
  sge_offset = 0;
  in_progress = true;
  has_immediate = false;
  immediate_data = 0;
}

unfoldable pub recv_cqe : ℕ → RecvMessageState → RdmaCqe
recv_cqe qp_number st = record {
  wr_id = st.wr_id;
  status = success;
  opcode = if st.has_immediate then WqeOpcode.send_imm else WqeOpcode.send;
  qp_number = qp_number;
  bytes_completed = st.bytes_received;
  immediate_data = st.immediate_data;
  has_immediate = st.has_immediate;
  is_send = false;
}

-- The packet's payload is in memory: what is left of the handler.
unfoldable pub accept_payload :
    Site SendRecvProcessor
    → RdmaPacketParser
    → RecvMessageState
    → ℕ
    → RecvResult × Site SendRecvProcessor
unfolding advance_psn advance_recv_psn record_packet_received recv_cqe put_state opcode_is_last
    opcode_is_only
accept_payload s p st n =
    let ends = opcode_is_last p.bth.opcode || opcode_is_only p.bth.opcode in
    let received = record st {
      bytes_received = add32 st.bytes_received n;
      expected_psn = advance_psn p.bth.psn 1;
      has_immediate = if p.has_immediate then true else st.has_immediate;
      immediate_data = if p.has_immediate then p.immediate else st.immediate_data;
      in_progress = if ends then false else st.in_progress;
    } in
    let stats = s.processor.stats in
    let counted = record stats {
      bytes_received = add64 stats.bytes_received n;
      recv_packets_processed = add64 stats.recv_packets_processed 1;
      recvs_completed = if ends then add64 stats.recvs_completed 1 else stats.recvs_completed;
    } in
    let answer = p.bth.ack_request || ends in
    (
      record {
        success = true;
        needs_ack = answer;
        is_message_complete = ends;
        ack_psn = if answer then p.bth.psn else 0;
        syndrome = ack;
        cqe = if ends then some (recv_cqe s.qp.qp_number received) else none;
      },
      put_state
          (record s {
            processor = record (s.processor) { stats = counted };
            qp = record_packet_received (advance_recv_psn s.qp) n;
          })
          received,
    )

-- The write of the payload.
unfoldable pub recv_payload :
    Site SendRecvProcessor
    → RdmaPacketParser
    → RecvMessageState
    → RecvResult × Site SendRecvProcessor
unfolding write_to_sgl put_state accept_payload
recv_payload s p st =
    let w = write_to_sgl s.host.host_memory st.sgl p.payload st.current_sge_idx st.sge_offset in
    let s' = record s { host = record (s.host) { host_memory = w.memory } } in
    let st' = record st { current_sge_idx = w.sge_idx; sge_offset = w.sge_offset } in
    if not (w.count == length p.payload)
    then (nak nak_remote_access p.bth.psn, put_state s' (record st' { in_progress = false }))
    else accept_payload s' p st' w.count

-- The two checks of the message's state.
unfoldable pub recv_checked :
    Site SendRecvProcessor
    → RdmaPacketParser
    → RecvMessageState
    → RecvResult × Site SendRecvProcessor
unfolding recv_payload put_state opcode_is_first opcode_is_only
recv_checked s p st =
    let starts = opcode_is_first p.bth.opcode || opcode_is_only p.bth.opcode in
    if not st.in_progress
    then (nak invalid_request p.bth.psn, put_state s st)
    else if not starts && not (st.expected_psn == p.bth.psn)
    then (nak psn_seq_error st.expected_psn, count_sequence (put_state s st))
    else recv_payload s p st

unfoldable pub recv_started :
    Site SendRecvProcessor
    → RdmaPacketParser
    → Option RecvWqe × RdmaQueuePair
    → RecvResult × Site SendRecvProcessor
unfolding recv_state begin_recv recv_checked put_state
recv_started s p (none, q) =
    (nak rnr_nak p.bth.psn, count_rnr (put_state (record s { qp = q }) (recv_state s)))
recv_started s p (some w, q) =
    recv_checked (record s { qp = q }) p (begin_recv (recv_state s) w p.bth.psn)

unfoldable pub process_recv_packet :
    Site SendRecvProcessor → RdmaPacketParser → RecvResult × Site SendRecvProcessor
unfolding is_send can_receive consume_recv recv_started recv_state recv_checked opcode_is_first
    opcode_is_only
process_recv_packet s p =
    if not (is_send p.bth.opcode)
    then (no_result, s)
    else if not (can_receive s.qp)
    then (nak invalid_request p.bth.psn, s)
    else if not (p.bth.psn == s.qp.rq_psn)
    then (nak psn_seq_error s.qp.rq_psn, count_sequence s)
    else if opcode_is_first p.bth.opcode || opcode_is_only p.bth.opcode
    then recv_started s p (consume_recv s.qp)
    else recv_checked s p (recv_state s)
