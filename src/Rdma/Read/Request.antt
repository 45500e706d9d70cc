-- ===== src/Rdma/Read/Request.antt =====
-- The requester of a READ: `generate_read_request`, `process_read_response` and `write_to_sgl` of
-- src/rocev2/rdma_read.cpp.
use smart_nic.Rdma.MrTable.{validate_lkey}
use smart_nic.Rdma.Packet.Headers.{syndrome_code}
use smart_nic.Rdma.Packet.Parser.{RdmaPacketParser}
use smart_nic.Rdma.QueuePair.Work.{record_packet_received, record_packet_sent}
use smart_nic.Rdma.QueuePair.Reliable.{next_send_psn, add_pending_operation}
use smart_nic.Rdma.Opcode.{
  opcode_is_first, opcode_is_read_response, opcode_is_only, opcode_is_last, rc_read_request,
}
use smart_nic.Rdma.Psn.{advance_psn}
use smart_nic.Rdma.Read.{
  ReadResponseResult, ReadRequestState, ReadProcessor, SglEntry, RdmaCqe, is_ok,
}
use smart_nic.Rdma.Transfer.{HostAccess, Site, Sent}
use smart_nic.Rdma.BitFields.{BitFields}
use smart_nic.Rdma.Packet.Builder.{
  set_opcode, set_dest_qp, set_psn, build, set_ack_request, set_remote_address, set_rkey,
  set_dma_length, RdmaPacketBuilder, new_builder,
}
use smart_nic.Base.Assoc.{insert, lookup}
use smart_nic.Rdma.Wqe.{SendWqe, WqeOpcode, WqeStatus, ack}
use smart_nic.Base.{
  true, false, none, some, [], ℕ, Bool, List, ◌∷◌, add64, min, drop, ◌||◌, Option, if◌then◌else◌,
  sub64, add32, not, ◌&&◌, length, ◌==◌, take, ◌+◌, leb,
}

-- The state of a request that starts, whatever the map held before.
unfoldable pub begin_request : SendWqe → ℕ → ReadRequestState
begin_request wqe psn = record {
  wr_id = wqe.wr_id;
  local_address = elim wqe.sgl [ [] ↦ 0 | e ∷ es ↦ e.address ];
  local_lkey = wqe.local_lkey;
  total_length = wqe.total_length;
  bytes_received = 0;
  expected_psn = psn;
  start_psn = psn;
  sgl = wqe.sgl;
  current_sge_idx = 0;
  sge_offset = 0;
  in_progress = true;
}

unfoldable pub put_state : Site ReadProcessor → ReadRequestState → Site ReadProcessor
unfolding insert
put_state s st = record s {
  processor = record (s.processor) {
    request_states = insert s.qp.qp_number st s.processor.request_states;
  };
}

unfoldable pub is_read_wqe : WqeOpcode → Bool
is_read_wqe WqeOpcode.rdma_read = true
is_read_wqe _ = false

unfoldable pub request_packet : SendWqe → ℕ → ℕ → RdmaPacketBuilder
unfolding set_opcode set_dest_qp set_psn set_ack_request set_remote_address set_rkey set_dma_length
request_packet wqe dest psn = set_dma_length wqe.total_length (
    set_rkey wqe.rkey (
      set_remote_address wqe.remote_address (
        set_ack_request false
          (set_psn psn (set_dest_qp dest (set_opcode rc_read_request new_builder))))))

module _ (bits : BitFields) where
  unfoldable pub generate_read_request : Site ReadProcessor → SendWqe → Sent ReadProcessor
  unfolding is_read_wqe next_send_psn begin_request put_state request_packet build
      add_pending_operation record_packet_sent
  generate_read_request s wqe =
      let (psn, q) = next_send_psn s.qp in
      let packet = build bits (request_packet wqe s.qp.dest_qp_number psn) in
      let started = put_state s (begin_request wqe psn) in
      let stats = s.processor.stats in
      if not (is_read_wqe wqe.opcode) then record { packets = []; site = s } else record {
        packets = packet ∷ [];
        site = record started {
          processor = record (started.processor) {
            stats = record stats {
              reads_started = add64 stats.reads_started 1;
              read_requests_generated = add64 stats.read_requests_generated 1;
            };
          };
          qp = record_packet_sent (add_pending_operation q wqe 1) (length packet);
        };
      }

-- Where `write_to_sgl` is: the bytes written, the memory and the table, and the place in the list.
pub record Placed : Type 0 where
  pub count : ℕ
  pub host : HostAccess
  pub sge_idx : ℕ
  pub sge_offset : ℕ

-- The loop, over the entries from `idx` on; each write is validated first. An entry that is not full took
-- all the data that was left, which ends the loop.
unfoldable pub place_entries : ℕ → HostAccess → List SglEntry → List ℕ → ℕ → ℕ → Placed
place_entries lkey h [] bytes idx off = record {
  count = 0;
  host = h;
  sge_idx = idx;
  sge_offset = off;
}
place_entries lkey h (entry ∷ entries) [] idx off = record {
  count = 0;
  host = h;
  sge_idx = idx;
  sge_offset = off;
}
place_entries lkey h (entry ∷ entries) (b ∷ bs) idx off =
    let to_write = min (sub64 entry.size off) (length (b ∷ bs)) in
    let address = add64 entry.address off in
    let (valid, table) = validate_lkey h.mr_table lkey address to_write true in
    let (done, m) = smart_nic.Memory.Host.write h.host_memory address (take to_write (b ∷ bs)) in
    let h1 = record h { mr_table = table } in
    let h2 = record h1 { host_memory = m } in
    let rest = place_entries lkey h2 entries (drop to_write (b ∷ bs)) (idx + 1) 0 in
    if not (valid && is_ok done)
    then record { count = 0; host = h1; sge_idx = idx; sge_offset = off }
    else if leb entry.size (off + to_write)
    then record rest { count = to_write + rest.count }
    else record { count = to_write; host = h2; sge_idx = idx; sge_offset = off + to_write }

unfoldable pub place_in_sgl : HostAccess → List SglEntry → List ℕ → ℕ → ℕ → ℕ → Placed
unfolding place_entries
place_in_sgl h sgl bytes idx off lkey = place_entries lkey h (drop idx sgl) bytes idx off

abbrev no_response : ReadResponseResult
no_response = record { success = false; is_read_complete = false; cqe = none }

-- The completion of a request.
unfoldable pub read_cqe : ℕ → ReadRequestState → WqeStatus → ℕ → RdmaCqe
read_cqe qp_number st status n = record {
  wr_id = st.wr_id;
  status = status;
  opcode = WqeOpcode.rdma_read;
  qp_number = qp_number;
  bytes_completed = n;
  immediate_data = 0;
  has_immediate = false;
  is_send = true;
}

-- The response's payload is in memory: what is left of the handler.
unfoldable pub accept_response :
    Site ReadProcessor
    → RdmaPacketParser
    → ReadRequestState
    → ℕ
    → ReadResponseResult × Site ReadProcessor
unfolding advance_psn record_packet_received read_cqe put_state opcode_is_last opcode_is_only
accept_response s p st n =
    let ends = opcode_is_last p.bth.opcode || opcode_is_only p.bth.opcode in
    let received = record st {
      bytes_received = add32 st.bytes_received n;
      expected_psn = advance_psn p.bth.psn 1;
      in_progress = if ends then false else st.in_progress;
    } in
    let stats = s.processor.stats in
    let counted = record stats {
      bytes_read = add64 stats.bytes_read n;
      read_responses_processed = add64 stats.read_responses_processed 1;
      reads_completed = if ends then add64 stats.reads_completed 1 else stats.reads_completed;
    } in
    (
      record {
        success = true;
        is_read_complete = ends;
        cqe =
            if ends
            then some (read_cqe s.qp.qp_number received WqeStatus.success received.bytes_received)
            else none;
      },
      put_state
          (record s {
            processor = record (s.processor) { stats = counted };
            qp = record_packet_received s.qp n;
          })
          received,
    )

abbrev count_access : Site ReadProcessor → Site ReadProcessor
count_access s = record s {
  processor = record (s.processor) {
    stats = record (s.processor.stats) {
      access_errors = add64 (s.processor.stats.access_errors) 1;
    };
  };
}

-- The write of the payload.
unfoldable pub response_payload :
    Site ReadProcessor
    → RdmaPacketParser
    → ReadRequestState
    → ReadResponseResult × Site ReadProcessor
unfolding place_in_sgl put_state accept_response read_cqe
response_payload s p st =
    let w = place_in_sgl s.host st.sgl p.payload st.current_sge_idx st.sge_offset st.local_lkey in
    let s' = record s { host = w.host } in
    let st' = record st { current_sge_idx = w.sge_idx; sge_offset = w.sge_offset } in
    if not (w.count == length p.payload)
    then (
      record {
        success = false;
        is_read_complete = true;
        cqe = some (read_cqe s.qp.qp_number st WqeStatus.local_access_error st.bytes_received);
      },
      count_access (put_state s' (record st' { in_progress = false })),
    )
    else accept_response s' p st' w.count

-- A response to a request that waits; its sequence number is not looked at.
unfoldable pub response_to :
    Site ReadProcessor
    → RdmaPacketParser
    → ReadRequestState
    → ReadResponseResult × Site ReadProcessor
unfolding response_payload read_cqe put_state opcode_is_first opcode_is_only syndrome_code
response_to s p st =
    let starts = opcode_is_first p.bth.opcode || opcode_is_only p.bth.opcode in
    if starts && not p.has_aeth
    then (no_response, s)
    else if starts && not (syndrome_code p.aeth.syndrome == syndrome_code ack)
    then (
      record {
        success = false;
        is_read_complete = true;
        cqe = some (read_cqe s.qp.qp_number st WqeStatus.remote_access_error 0);
      },
      put_state s (record st { in_progress = false }),
    )
    else response_payload s p st

unfoldable pub response_found :
    Site ReadProcessor
    → RdmaPacketParser
    → Option ReadRequestState
    → ReadResponseResult × Site ReadProcessor
unfolding response_to
response_found s p none = (no_response, s)
response_found s p (some st) = if st.in_progress then response_to s p st else (no_response, s)

unfoldable pub process_read_response :
    Site ReadProcessor → RdmaPacketParser → ReadResponseResult × Site ReadProcessor
unfolding opcode_is_read_response lookup response_found
process_read_response s p =
    if not (opcode_is_read_response p.bth.opcode)
    then (no_response, s)
    else response_found s p (lookup s.qp.qp_number s.processor.request_states)
