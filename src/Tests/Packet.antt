-- ===== src/Tests/Packet.antt =====
-- Packets and messages between two small devices, over the bit field library of the tests.
use smart_nic.Rdma.Read.Guard.{process_read-Permitted}
use smart_nic.Rdma.Read.Request.{generate_read_request}
use smart_nic.Rdma.MrTable.Access.{Permitted}
use smart_nic.Rdma.Read.Respond.{process_read_request}
use smart_nic.Rdma.Read.{ReadProcessor}
use smart_nic.Base.Assoc.{lookup, insert}
use smart_nic.Rdma.SendRecv.Sequence.{process_recv-sequence, process_recv-replayed}
use smart_nic.Rdma.SendRecv.Steps.{completion}
use smart_nic.Rdma.Psn.{advance_psn}
use smart_nic.Rdma.SendRecv.Delivery.{deliver, Completes}
use smart_nic.Rdma.SendRecv.Packets.{payload_of, generate-payloads}
use smart_nic.Rdma.Packet.RoundTrip.{read_by, parse-build}
use smart_nic.Rdma.Opcode.{
  rc_write_only_imm, rc_send_only, rc_write_only, rc_read_request, rc_read_response_only,
}
use smart_nic.Rdma.Write.Process.{process_write_packet}
use smart_nic.Rdma.Transfer.Segments.{join}
use smart_nic.Memory.Dma.{SglEntry}
use smart_nic.Tests.BitFields.{bit_fields, lawful}
use smart_nic.Rdma.Write.{WriteProcessor}
use smart_nic.Rdma.SendRecv.{SendRecvProcessor}
use smart_nic.Rdma.Write.Guard.{Guards, process_write-guarded}
use smart_nic.Rdma.SendRecv.Process.{process_recv_packet, nak, is_send, count_sequence}
use smart_nic.Rdma.SendRecv.Message.{Awaits, send-delivered}
use smart_nic.Rdma.SendRecv.Generate.{is_send_wqe, is_send_imm, generate_send_packets}
use smart_nic.Rdma.QueuePair.Work.{can_receive}
use smart_nic.Rdma.QueuePair.Reliable.{mtu_bytes}
use smart_nic.Rdma.Wqe.{RecvWqe, SendWqe, QpType, QpState, WqeOpcode, psn_seq_error}
use smart_nic.Rdma.Transfer.{HostAccess, Site, read_from_sgl}
use smart_nic.Rdma.MrTable.{MemoryRegion, validate_lkey}
use smart_nic.Memory.Host.{SimpleHostMemory, is_ok}
use smart_nic.Rdma.Packet.Parser.{RdmaPacketParser, parse}
use smart_nic.Rdma.Packet.Fields.{IsWellFormed, bth_fields, reth_fields, aeth_fields}
use smart_nic.Rdma.Packet.Builder.{RdmaPacketBuilder, new_builder, build}
use smart_nic.Rdma.QueuePair.{RdmaQpConfig, RdmaQueuePair}
use smart_nic.Base.{
  true, false, refl, none, [], ◌∷◌, List, arith, length, ◌≡◌, map, if◌then◌else◌, slice, splice,
}
use smart_nic.Rdma.QueuePair
use smart_nic.Memory.Host
use smart_nic.Rdma.SendRecv
use smart_nic.Rdma.MrTable
use smart_nic.Rdma.Write
use smart_nic.Rdma.Read

abbrev sample : RdmaPacketBuilder
sample = record new_builder {
  opcode = rc_write_only_imm;
  dest_qp = 7;
  psn = 5;
  pad_count = 1;
  fecn = true;
  remote_address = 4096;
  rkey = 258;
  dma_length = 3;
  immediate = 99;
  has_immediate = true;
  payload = 10 ∷ 20 ∷ 30 ∷ [];
}

sample-IsWellFormed : IsWellFormed sample
unfolding new_builder
sample-IsWellFormed = record {
  listed = tt;
  listed_syndrome = tt;
  dest_qp_in = omega arith;
  psn_in = omega arith;
  partition_key_in = omega arith;
  pad_count_in = omega arith;
  remote_address_in = omega arith;
  rkey_in = omega arith;
  dma_length_in = omega arith;
  msn_in = omega arith;
  immediate_in = omega arith;
  has_variant = λ e. refl;
}

abbrev new_parser : RdmaPacketParser
new_parser = record {
  bth = bth_fields new_builder;
  reth = reth_fields new_builder;
  aeth = aeth_fields new_builder;
  immediate = 0;
  payload = [];
  has_reth = false;
  has_aeth = false;
  has_immediate = false;
}

parse-build_example :
    parse bit_fields new_parser (build bit_fields sample) ≡ (true, read_by sample new_parser)
parse-build_example = parse-build bit_fields new_parser sample lawful sample-IsWellFormed

abbrev memory : SimpleHostMemory
memory = record {
  config = record { size_bytes = 16; page_size = 4096; iommu_enabled = false };
  translator = none;
  fault_injector = none;
  buffer = 1 ∷ 2 ∷ 3 ∷ 4 ∷ 5 ∷ 6 ∷ 7 ∷ 8 ∷ 0 ∷ 0 ∷ 0 ∷ 0 ∷ 0 ∷ 0 ∷ 0 ∷ 0 ∷ [];
}

abbrev region : MemoryRegion
region = record {
  lkey = 256;
  rkey = 257;
  virtual_address = 0;
  size = 16;
  pd_handle = 1;
  access = record {
    local_read = true;
    local_write = true;
    remote_read = true;
    remote_write = true;
    zero_based = false;
  };
  is_valid = true;
}

abbrev host : HostAccess
host = record {
  host_memory = memory;
  mr_table = record {
    max_mrs = 4;
    mrs_by_lkey = (256, region) ∷ [];
    mrs_by_rkey = (257, region) ∷ [];
    next_key = 258;
    stats = MrTable.no_stats;
  };
}

abbrev config : RdmaQpConfig
config = record {
  type = QpType.rc;
  send_queue_depth = 4;
  recv_queue_depth = 4;
  max_send_sge = 1;
  max_recv_sge = 1;
  pd_handle = 1;
  send_cq_number = 0;
  recv_cq_number = 0;
  max_inline_data = 0;
  retry_count = 7;
  rnr_retry_count = 7;
  timeout = 14;
  min_rnr_timer = 12;
}

-- Two entries, of three and of five bytes.
abbrev buffers : List SglEntry
buffers = record { address = 8; size = 3 } ∷ record { address = 11; size = 5 } ∷ []

abbrev request : RecvWqe
request = record { wr_id = 42; sgl = buffers; total_length = 8 }

abbrev pair : RdmaQueuePair
pair = record {
  qp_number = 2;
  config = config;
  state = QpState.rts;
  dest_qp_number = 3;
  dest_ip = [];
  dest_port = 4791;
  path_mtu = 1;
  sq_psn = 9;
  rq_psn = 9;
  last_acked_psn = 0;
  send_queue = [];
  recv_queue = request ∷ [];
  pending_operations = [];
  current_time_us = 0;
  stats = QueuePair.no_stats;
}

abbrev peer : Site SendRecvProcessor
peer = record { processor = SendRecv.create; host = host; qp = pair }

abbrev message : SendWqe
message = record {
  wr_id = 1;
  opcode = WqeOpcode.send_imm;
  sgl = record { address = 0; size = 8 } ∷ [];
  total_length = 8;
  signaled = true;
  solicited = false;
  fence = false;
  inline_data = false;
  immediate_data = 77;
  remote_address = 0;
  rkey = 0;
  local_lkey = 256;
}

message_read :
    length (read_from_sgl peer.host message.sgl message.local_lkey).0 ≡ message.total_length
unfolding read_from_sgl validate_lkey is_ok lookup slice splice smart_nic.Memory.Host.read
message_read = refl

pair_mtu : mtu_bytes pair ≡ 256
unfolding mtu_bytes
pair_mtu = refl

pair_able : can_receive pair ≡ true
unfolding can_receive
pair_able = refl

generate-payloads_example :
    join (
      map
        (payload_of bit_fields new_parser)
        (generate_send_packets bit_fields peer message).packets)
    ≡ (read_from_sgl peer.host message.sgl message.local_lkey).0
unfolding is_send_wqe
generate-payloads_example =
    generate-payloads bit_fields lawful new_parser message (omega arith) peer refl message_read
      (omega (arith, pair_mtu))

abbrev waits : Awaits peer 9 request [] 8
waits = record {
  able = pair_able;
  expects = refl;
  posted = refl;
  plain = (refl, refl, omega arith);
  within = (omega arith, (omega arith, tt));
  fits = omega arith;
  small = omega arith;
}

send-delivered_example :
    let sent = generate_send_packets bit_fields peer message in
    let (rs, d') =
      deliver peer (map (λ bytes. (parse bit_fields new_parser bytes).1) sent.packets) in
    Completes rs (completion request 2 true 77 8) × (d'.qp.rq_psn ≡ sent.site.qp.sq_psn)
unfolding is_send_wqe is_send_imm
send-delivered_example =
    send-delivered bit_fields lawful new_parser message (omega arith) peer peer request [] refl
      message_read (omega arith) (omega (arith, pair_mtu)) (omega arith) waits

-- The only packet of a SEND.
abbrev send_parser : RdmaPacketParser
send_parser = record new_parser {
  bth = record (bth_fields new_builder) { opcode = rc_send_only; psn = 9 };
  payload = 1 ∷ 2 ∷ 3 ∷ 4 ∷ [];
}

process_recv-sequence_example :
    let (r, s') = process_recv_packet peer send_parser in
    (s'.qp.rq_psn ≡ (if r.success then advance_psn 9 1 else 9))
    × (r.success ≡ true
        → (is_send rc_send_only ≡ true)
          × (can_receive pair ≡ true)
          × (send_parser.bth.psn ≡ pair.rq_psn))
process_recv-sequence_example = process_recv-sequence peer send_parser

send_accepted : (process_recv_packet peer send_parser).0.success ≡ true
unfolding process_recv_packet smart_nic.Memory.Host.write slice splice lookup insert is_ok
send_accepted = refl

process_recv-replayed_example :
    let s' = (process_recv_packet peer send_parser).1 in
    process_recv_packet s' send_parser ≡ (nak psn_seq_error (advance_psn 9 1), count_sequence s')
process_recv-replayed_example = process_recv-replayed peer send_parser (omega arith) send_accepted

abbrev write_parser : RdmaPacketParser
write_parser = record new_parser {
  bth = record (bth_fields new_builder) { opcode = rc_write_only; psn = 9 };
  reth = record { virtual_address = 8; rkey = 257; dma_length = 4 };
  has_reth = true;
  payload = 1 ∷ 2 ∷ 3 ∷ 4 ∷ [];
}

abbrev responder : Site WriteProcessor
responder = record { processor = Write.create; host = host; qp = pair }

process_write-guarded_example :
    Guards host 1 (1 ∷ 2 ∷ 3 ∷ 4 ∷ []) (process_write_packet responder write_parser).1.host
process_write-guarded_example = process_write-guarded responder write_parser

-- A request for the first four bytes.
abbrev read_parser : RdmaPacketParser
read_parser = record new_parser {
  bth = record (bth_fields new_builder) { opcode = rc_read_request; psn = 9 };
  reth = record { virtual_address = 0; rkey = 257; dma_length = 4 };
  has_reth = true;
}

abbrev read_site : Site ReadProcessor
read_site = record { processor = Read.create; host = host; qp = pair }

read_accepted : (process_read_request bit_fields read_site read_parser).0.success ≡ true
unfolding process_read_request smart_nic.Memory.Host.read slice splice lookup is_ok
read_accepted = refl

process_read-Permitted_example : Permitted host.mr_table false 1 0 4
process_read-Permitted_example =
    process_read-Permitted bit_fields read_site read_parser read_accepted

abbrev waiting : Site ReadProcessor
waiting =
    (generate_read_request bit_fields read_site
      (record message { opcode = WqeOpcode.rdma_read })).site

abbrev response_parser : RdmaPacketParser
response_parser = record new_parser {
  bth = record (bth_fields new_builder) { opcode = rc_read_response_only; psn = 9 };
  has_aeth = true;
  payload = 1 ∷ 2 ∷ 3 ∷ 4 ∷ [];
}
