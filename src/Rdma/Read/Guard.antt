-- ===== src/Rdma/Read/Guard.antt =====
-- What a responder of a READ gives away, and what its requester takes.
use smart_nic.Rdma.Wqe.{ack}
use smart_nic.Rdma.Packet.Headers.{syndrome_code}
use smart_nic.Rdma.QueuePair.Work.{can_receive}
use smart_nic.Base.Assoc.{lookup}
use smart_nic.Rdma.Opcode.{
  opcode_code, opcode_is_first, opcode_is_read_response, rc_read_request, opcode_is_only,
}
use smart_nic.Rdma.MrTable.Access.{Permitted, validate_rkey-Permitted}
use smart_nic.Base.{
  ◌≡◌, true, ℕ, refl, false, Bool, not, ◌==◌, Option, length, ◌||◌, some, if◌then◌else◌, arith,
  none, ◌&&◌,
}
use smart_nic.Rdma.Packet.Parser.{RdmaPacketParser}
use smart_nic.Rdma.Read.{
  ReadProcessor, ReadRequestState, validate_rkey, ReadRequestResult, ReadResponseResult,
}
use smart_nic.Rdma.Transfer.{Site}
use smart_nic.Rdma.BitFields.{BitFields}
use smart_nic.Rdma.Read.Request.{
  accept_response, response_payload, place_in_sgl, response_to, response_found,
  process_read_response,
}
use smart_nic.Rdma.Read.Respond.{process_read_request}

-- What succeeds has passed a test whose refusal does not.
passes :
    (c : Bool) (x y : ReadRequestResult × Site ReadProcessor)
    → x.0.success ≡ false
    → (if c then x else y).0.success ≡ true
    → (c ≡ false) × (y.0.success ≡ true)
passes true x y refused ok = ground (arith, refused, ok)
passes false x y refused ok = (refl, ok)

-- A READ request that is accepted was permitted: the table has a region, of the queue pair's
-- protection domain, whose test lets a remote read of the whole range through.
pub process_read-Permitted :
    (bits : BitFields) (s : Site ReadProcessor) (p : RdmaPacketParser)
    → (process_read_request bits s p).0.success ≡ true
    → Permitted s.host.mr_table false s.qp.config.pd_handle p.reth.virtual_address p.reth.dma_length
unfolding process_read_request
process_read-Permitted bits s p ok =
    let valid =
      (validate_rkey s.host.mr_table p.reth.rkey s.qp.config.pd_handle p.reth.virtual_address
        p.reth.dma_length false).0 in
    let (_, ok1) =
      passes (not (opcode_code p.bth.opcode == opcode_code rc_read_request)) _ _ refl ok in
    let (_, ok2) = passes (not (can_receive s.qp)) _ _ refl ok1 in
    let (_, ok3) = passes (not (p.bth.psn == s.qp.rq_psn)) _ _ refl ok2 in
    let (_, ok4) = passes (not p.has_reth) _ _ refl ok3 in
    let (open_, _) = passes (not valid) _ _ refl ok4 in
    validate_rkey-Permitted s.host.mr_table p.reth.rkey s.qp.config.pd_handle p.reth.virtual_address
      p.reth.dma_length false (ground (arith, open_))

same_if :
    (c : Bool) (x x' y y' : ReadResponseResult × Site ReadProcessor)
    → x.0 ≡ x'.0
    → y.0 ≡ y'.0
    → (if c then x else y).0 ≡ (if c then x' else y').0
same_if true x x' y y' e f = e
same_if false x x' y y' e f = f

accept_response-any :
    (s : Site ReadProcessor) (p : RdmaPacketParser) (st : ReadRequestState) (n k : ℕ)
    → (accept_response s (record p { bth = record (p.bth) { psn = k } }) st n).0
      ≡ (accept_response s p st n).0
unfolding accept_response
accept_response-any s p st n k = refl

response_payload-any :
    (s : Site ReadProcessor) (p : RdmaPacketParser) (st : ReadRequestState) (k : ℕ)
    → (response_payload s (record p { bth = record (p.bth) { psn = k } }) st).0
      ≡ (response_payload s p st).0
unfolding response_payload
response_payload-any s p st k =
    let w = place_in_sgl s.host st.sgl p.payload st.current_sge_idx st.sge_offset st.local_lkey in
    let s' : Site ReadProcessor = record s { host = w.host } in
    let st' : ReadRequestState = record st {
      current_sge_idx = w.sge_idx;
      sge_offset = w.sge_offset;
    } in
    same_if (not (w.count == length p.payload)) _ _ _ _ refl
      (accept_response-any s' p st' w.count k)

response_to-any :
    (s : Site ReadProcessor) (p : RdmaPacketParser) (st : ReadRequestState) (k : ℕ)
    → (response_to s (record p { bth = record (p.bth) { psn = k } }) st).0 ≡ (response_to s p st).0
unfolding response_to
response_to-any s p st k =
    let starts = opcode_is_first p.bth.opcode || opcode_is_only p.bth.opcode in
    same_if (starts && not p.has_aeth) _ _ _ _ refl (
      same_if (starts && not (syndrome_code p.aeth.syndrome == syndrome_code ack)) _ _ _ _ refl
        (response_payload-any s p st k))

response_found-any :
    (s : Site ReadProcessor) (p : RdmaPacketParser) (o : Option ReadRequestState) (k : ℕ)
    → (response_found s (record p { bth = record (p.bth) { psn = k } }) o).0
      ≡ (response_found s p o).0
unfolding response_found
response_found-any s p none k = refl
response_found-any s p (some st) k = same_if st.in_progress _ _ _ _ (response_to-any s p st k) refl

-- A READ response has the same result whatever its sequence number is.
pub process_read_response-any :
    (s : Site ReadProcessor) (p : RdmaPacketParser) (k : ℕ)
    → (process_read_response s (record p { bth = record (p.bth) { psn = k } })).0
      ≡ (process_read_response s p).0
unfolding process_read_response
process_read_response-any s p k =
    same_if (not (opcode_is_read_response p.bth.opcode)) _ _ _ _ refl
      (response_found-any s p (lookup s.qp.qp_number s.processor.request_states) k)
