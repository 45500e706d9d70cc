-- ===== src/Rdma/Write/Process.antt =====
-- The responder: `process_write_packet` of src/rocev2/rdma_write.cpp.
use smart_nic.Rdma.QueuePair.{RdmaQueuePair}
use smart_nic.Rdma.QueuePair.Reliable.{advance_recv_psn}
use smart_nic.Rdma.Packet.Headers.{RethFields}
use smart_nic.Rdma.QueuePair.Work.{can_receive, record_packet_received, consume_recv}
use smart_nic.Rdma.MrTable.{validate_rkey}
use smart_nic.Rdma.Psn.{advance_psn}
use smart_nic.Rdma.Packet.Parser.{RdmaPacketParser}
use smart_nic.Rdma.Write.{
  WriteMessageState, write_to_remote, WriteResult, WriteProcessor, no_result, no_message,
}
use smart_nic.Rdma.Transfer.{Site}
use smart_nic.Base.Assoc.{lookup, insert}
use smart_nic.Rdma.Wqe.{
  AethSyndrome, RecvWqe, RdmaCqe, success, ack, WqeOpcode, rnr_nak, invalid_request,
  nak_remote_access, psn_seq_error,
}
use smart_nic.Rdma.Opcode.{
  RdmaOpcode, opcode_is_first, opcode_is_only, rc_write_first, opcode_is_last, rc_write_middle,
  rc_write_last, rc_write_last_imm, rc_write_only, rc_write_only_imm,
}
use smart_nic.Base.{
  true, false, none, some, ℕ, Bool, add64, Option, ◌||◌, if◌then◌else◌, length, not, ◌==◌, add32,
  ◌&&◌,
}

unfoldable pub is_write : RdmaOpcode → Bool
is_write rc_write_first = true
is_write rc_write_middle = true
is_write rc_write_last = true
is_write rc_write_last_imm = true
is_write rc_write_only = true
is_write rc_write_only_imm = true
is_write _ = false

abbrev pub nak : AethSyndrome → ℕ → WriteResult
nak syndrome psn = record no_result { syndrome = syndrome; needs_ack = true; ack_psn = psn }

-- `write_states_[qp_number]`, which the map makes when it is missing.
unfoldable pub write_state : Site WriteProcessor → WriteMessageState
unfolding lookup
write_state s = elim (lookup s.qp.qp_number s.processor.write_states) [
  | some found ↦ found
  | none ↦ no_message
]

unfoldable pub put_state : Site WriteProcessor → WriteMessageState → Site WriteProcessor
unfolding insert
put_state s st = record s {
  processor = record (s.processor) {
    write_states = insert s.qp.qp_number st s.processor.write_states;
  };
}

abbrev pub count_sequence : Site WriteProcessor → Site WriteProcessor
count_sequence s = record s {
  processor = record (s.processor) {
    stats = record (s.processor.stats) {
      sequence_errors = add64 (s.processor.stats.sequence_errors) 1;
    };
  };
}

abbrev count_rkey : Site WriteProcessor → Site WriteProcessor
count_rkey s = record s {
  processor = record (s.processor) {
    stats = record (s.processor.stats) { rkey_errors = add64 (s.processor.stats.rkey_errors) 1 };
  };
}

abbrev count_access : Site WriteProcessor → Site WriteProcessor
count_access s = record s {
  processor = record (s.processor) {
    stats = record (s.processor.stats) {
      access_errors = add64 (s.processor.stats.access_errors) 1;
    };
  };
}

-- The state of a write that starts.
unfoldable pub begin_message : WriteMessageState → RethFields → ℕ → WriteMessageState
begin_message st reth psn = record st {
  remote_address = reth.virtual_address;
  rkey = reth.rkey;
  total_length = reth.dma_length;
  bytes_written = 0;
  expected_psn = psn;
  in_progress = true;
  has_immediate = false;
  immediate_data = 0;
}

unfoldable pub write_cqe : ℕ → RecvWqe → WriteMessageState → RdmaCqe
write_cqe qp_number w st = record {
  wr_id = w.wr_id;
  status = success;
  opcode = WqeOpcode.rdma_write_imm;
  qp_number = qp_number;
  bytes_completed = st.bytes_written;
  immediate_data = st.immediate_data;
  has_immediate = true;
  is_send = false;
}

-- The answer to a packet that was written, with the completion that it made.
unfoldable pub answer : RdmaPacketParser → Bool → Option RdmaCqe → WriteResult
answer p ends cqe =
    let answered = p.bth.ack_request || ends in
    record {
      success = true;
      needs_ack = answered;
      is_message_complete = ends;
      ack_psn = if answered then p.bth.psn else 0;
      syndrome = ack;
      recv_cqe = cqe;
    }

-- A write with an immediate takes a receive request.
unfoldable pub notify :
    Site WriteProcessor
    → RdmaPacketParser
    → WriteMessageState
    → Option RecvWqe × RdmaQueuePair
    → WriteResult × Site WriteProcessor
unfolding answer write_cqe
notify s p st (none, q) =
    (record (nak rnr_nak p.bth.psn) { is_message_complete = true }, record s { qp = q })
notify s p st (some w, q) = (answer p true (some (write_cqe q.qp_number w st)), record s { qp = q })

unfoldable pub ends_message : RdmaPacketParser → Bool
unfolding opcode_is_last opcode_is_only
ends_message p = opcode_is_last p.bth.opcode || opcode_is_only p.bth.opcode

-- The message's state behind the packet.
unfoldable pub after_packet : RdmaPacketParser → WriteMessageState → WriteMessageState
unfolding advance_psn ends_message
after_packet p st = record st {
  bytes_written = add32 st.bytes_written (length p.payload);
  expected_psn = advance_psn p.bth.psn 1;
  has_immediate = if p.has_immediate then true else st.has_immediate;
  immediate_data = if p.has_immediate then p.immediate else st.immediate_data;
  in_progress = if ends_message p then false else st.in_progress;
}

-- The counts and the QP behind the packet.
unfoldable pub count_written : Site WriteProcessor → RdmaPacketParser → Site WriteProcessor
unfolding advance_recv_psn record_packet_received ends_message
count_written s p =
    let stats = s.processor.stats in
    record s {
      processor = record (s.processor) {
        stats = record stats {
          write_packets_processed = add64 stats.write_packets_processed 1;
          writes_completed =
              if ends_message p then add64 stats.writes_completed 1 else stats.writes_completed;
        };
      };
      qp = record_packet_received (advance_recv_psn s.qp) (length p.payload);
    }

-- The packet's payload is in memory: what is left of the handler.
unfoldable pub accept_payload :
    Site WriteProcessor → RdmaPacketParser → WriteMessageState → WriteResult × Site WriteProcessor
unfolding after_packet count_written put_state ends_message notify answer consume_recv
accept_payload s p st =
    let written = after_packet p st in
    let s' = put_state (count_written s p) written in
    if ends_message p && written.has_immediate
    then notify s' p written (consume_recv s'.qp)
    else (answer p (ends_message p) none, s')

-- The write of the payload; an empty one is not written.
unfoldable pub write_payload :
    Site WriteProcessor → RdmaPacketParser → WriteMessageState → WriteResult × Site WriteProcessor
unfolding write_to_remote put_state accept_payload
write_payload s p st =
    let address = add64 st.remote_address st.bytes_written in
    let (done, host) = write_to_remote s.host address st.rkey s.qp.config.pd_handle p.payload in
    let s' = record s { host = host } in
    if length p.payload == 0
    then accept_payload s p st
    else if not done
    then (
      nak nak_remote_access p.bth.psn,
      count_access (put_state s' (record st { in_progress = false })),
    )
    else accept_payload s' p st

-- The two checks of the message's state.
unfoldable pub write_checked :
    Site WriteProcessor → RdmaPacketParser → WriteMessageState → WriteResult × Site WriteProcessor
unfolding write_payload put_state opcode_is_first opcode_is_only
write_checked s p st =
    let starts = opcode_is_first p.bth.opcode || opcode_is_only p.bth.opcode in
    if not st.in_progress
    then (nak invalid_request p.bth.psn, put_state s st)
    else if not starts && not (st.expected_psn == p.bth.psn)
    then (nak psn_seq_error st.expected_psn, count_sequence (put_state s st))
    else write_payload s p st

-- The first packet of a write: the whole range that it announces is validated.
unfoldable pub write_started :
    Site WriteProcessor → RdmaPacketParser → WriteResult × Site WriteProcessor
unfolding write_state put_state begin_message write_checked validate_rkey
write_started s p =
    let st = write_state s in
    let (valid, table) =
      validate_rkey s.host.mr_table p.reth.rkey s.qp.config.pd_handle p.reth.virtual_address
        p.reth.dma_length true in
    let s' = record s { host = record (s.host) { mr_table = table } } in
    if not p.has_reth
    then (nak invalid_request p.bth.psn, put_state s st)
    else if not valid
    then (nak nak_remote_access p.bth.psn, count_rkey (put_state s' st))
    else write_checked s' p (begin_message st p.reth p.bth.psn)

unfoldable pub process_write_packet :
    Site WriteProcessor → RdmaPacketParser → WriteResult × Site WriteProcessor
unfolding is_write can_receive write_started write_state write_checked opcode_is_first
    opcode_is_only
process_write_packet s p =
    if not (is_write p.bth.opcode)
    then (no_result, s)
    else if not (can_receive s.qp)
    then (nak invalid_request p.bth.psn, s)
    else if not (p.bth.psn == s.qp.rq_psn)
    then (nak psn_seq_error s.qp.rq_psn, count_sequence s)
    else if opcode_is_first p.bth.opcode || opcode_is_only p.bth.opcode
    then write_started s p
    else write_checked s p (write_state s)
