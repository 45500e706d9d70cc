-- ===== src/Rdma/Engine/Incoming/Dispatch.antt =====
-- `process_incoming_packet` of `RdmaEngine` of src/rocev2/engine.cpp: its guards, the notification and the dispatch
-- on the opcode.
use smart_nic.Rdma.Packet.Parser.{parse}
use smart_nic.Base.Assoc.{lookup}
use smart_nic.Rdma.Engine.Incoming.{
  process_send_packet, process_write, process_read_request_packet, RdmaPacketParser,
  process_read_response_packet, new_parser, process_ack_packet, process_cnp_packet,
}
use smart_nic.Rdma.Engine.{RdmaEngine, queue_outgoing_packet, RdmaQueuePair, count_error}
use smart_nic.Rdma.BitFields.{BitFields}
use smart_nic.Rdma.Opcode.{opcode_is_read_response, RdmaOpcode}
use smart_nic.Base.{true, false, none, some, if◌then◌else◌, ℕ, List, add64, Bool, not, length}
use smart_nic.Rdma.SendRecv.Process.{is_send}
use smart_nic.Rdma.Write.Process.{is_write}
use smart_nic.Rdma.Congestion.{ce, Floats, is_congestion_marked, generate_cnp}

-- The handlers of the engine, by the group of the opcode.
pub data PacketKind : Type 0 where
  send_packet write_packet read_request read_response ack_packet cnp_packet other_packet :
      PacketKind

-- The chain of tests on the opcode.
unfoldable pub kind_of : RdmaOpcode → PacketKind
unfolding is_send is_write opcode_is_read_response
kind_of opcode =
    if is_send opcode
    then send_packet
    else if is_write opcode
    then write_packet
    else if opcode_is_read_response opcode
    then read_response
    else elim opcode [
      | RdmaOpcode.rc_read_request ↦ read_request
      | RdmaOpcode.rc_ack ↦ ack_packet
      | RdmaOpcode.cnp ↦ cnp_packet
      | _ ↦ other_packet
    ]

module _ {D : Type 0} where
  abbrev pub count_received : RdmaEngine D → ℕ → RdmaEngine D
  count_received e n = record e {
    stats = record (e.stats) {
      packets_received = add64 (e.stats.packets_received) 1;
      bytes_received = add64 (e.stats.bytes_received) n;
    };
  }

module _ {D : Type 0} (fl : Floats D) (bits : BitFields) where
  -- The notification: the test is on the constant `EcnCodepoint::Ce`, and the time is 0.
  unfoldable pub notify_sender : RdmaEngine D → RdmaQueuePair → ℕ → RdmaEngine D
  unfolding is_congestion_marked generate_cnp queue_outgoing_packet
  notify_sender e q dest_qp =
      let (packet, manager) = generate_cnp bits e.congestion_manager dest_qp 0 in
      if not (is_congestion_marked ce) then e else elim packet [
        | none ↦ record e { congestion_manager = manager }
        | some bytes ↦ queue_outgoing_packet (record e { congestion_manager = manager }) bytes q
      ]

  unfoldable pub dispatch :
      PacketKind → RdmaEngine D → ℕ → RdmaQueuePair → RdmaPacketParser → Bool × RdmaEngine D
  unfolding process_send_packet process_write process_read_request_packet
      process_read_response_packet process_ack_packet process_cnp_packet
  dispatch send_packet e key q p = (true, process_send_packet bits e key q p)
  dispatch write_packet e key q p = (true, process_write bits e key q p)
  dispatch read_request e key q p = (true, process_read_request_packet bits e key q p)
  dispatch read_response e key q p = (true, process_read_response_packet e key q p)
  dispatch ack_packet e key q p = (true, process_ack_packet e key q p)
  dispatch cnp_packet e key q p = (true, process_cnp_packet fl e q)
  dispatch other_packet e key q p = (false, count_error e)

  -- After the packet is parsed.
  unfoldable pub process_parsed : RdmaEngine D → ℕ → RdmaPacketParser → Bool × RdmaEngine D
  unfolding lookup kind_of notify_sender dispatch
  process_parsed e n p = elim (lookup p.bth.dest_qp e.qps) [
    | none ↦ (false, count_error e)
    | some q ↦
        dispatch (kind_of p.bth.opcode) (count_received (notify_sender e q p.bth.dest_qp) n)
          p.bth.dest_qp q p
  ]

  unfoldable pub process_incoming_packet : RdmaEngine D → List ℕ → Bool × RdmaEngine D
  unfolding parse process_parsed
  process_incoming_packet e udp_payload =
      let (parsed, p) = parse bits new_parser udp_payload in
      if not e.config.enabled
      then (false, e)
      else if not parsed
      then (false, count_error e)
      else process_parsed e (length udp_payload) p
