-- ===== src/Rdma/Write/Sequence.antt =====
-- What the responder of a WRITE does to the sequence number it expects, whatever the packet.
use smart_nic.Rdma.Wqe.{RecvWqe, rnr_nak}
use smart_nic.Rdma.Psn.{advance_psn}
use smart_nic.Rdma.Opcode.{opcode_is_first, opcode_is_only}
use smart_nic.Rdma.QueuePair.Reliable.{advance_recv_psn}
use smart_nic.Rdma.Packet.Parser.{RdmaPacketParser}
use smart_nic.Rdma.Transfer.{Site}
use smart_nic.Rdma.QueuePair.{RdmaQueuePair}
use smart_nic.Rdma.Write.{
  WriteResult, WriteProcessor, WriteMessageState, validate_rkey, write_to_remote,
}
use smart_nic.Rdma.QueuePair.Work.{consume_recv, record_packet_received, can_receive}
use smart_nic.Rdma.Write.Process.{
  notify, accept_payload, write_payload, write_checked, write_started, process_write_packet, answer,
  put_state, count_written, after_packet, ends_message, begin_message, is_write, write_state,
}
use smart_nic.Base.{
  true, false, refl, none, some, [], ℕ, ◌≡◌, arith, if◌then◌else◌, ◌||◌, Option, add64, if-cases,
  ◌&&◌, not, length, ◌==◌, Bool-cases, inl, inr,
}

-- The expected number moves by one where the packet is accepted, or completes its message without being
-- accepted.
abbrev pub Moves : ℕ → WriteResult × Site WriteProcessor → Type 0
Moves psn (r, s') =
    s'.qp.rq_psn ≡ (if r.success || r.is_message_complete then advance_psn psn 1 else psn)

notify-Moves :
    (s : Site WriteProcessor) (p : RdmaPacketParser) (st : WriteMessageState) (psn : ℕ)
    (c : Option RecvWqe × RdmaQueuePair)
    → c.1.rq_psn ≡ advance_psn psn 1
    → Moves psn (notify s p st c)
unfolding notify answer
notify-Moves s p st psn (none, q) e = e
notify-Moves s p st psn (some w, q) e = e

consume_recv-rq_psn : (q : RdmaQueuePair) → (consume_recv q).1.rq_psn ≡ q.rq_psn
unfolding consume_recv
consume_recv-rq_psn q = ground arith

accept_payload-Moves :
    (s : Site WriteProcessor) (p : RdmaPacketParser) (st : WriteMessageState)
    → Moves s.qp.rq_psn (accept_payload s p st)
unfolding accept_payload put_state count_written advance_recv_psn record_packet_received answer
accept_payload-Moves s p st =
    let s' = put_state (count_written s p) (after_packet p st) in
    if-cases (Moves s.qp.rq_psn) (ends_message p && (after_packet p st).has_immediate) _ _
      (λ e.
        notify-Moves s' p (after_packet p st) s.qp.rq_psn (consume_recv s'.qp)
          (consume_recv-rq_psn s'.qp))
      (λ e. refl)

write_payload-Moves :
    (s : Site WriteProcessor) (p : RdmaPacketParser) (st : WriteMessageState)
    → Moves s.qp.rq_psn (write_payload s p st)
unfolding write_payload put_state
write_payload-Moves s p st =
    let address = add64 st.remote_address st.bytes_written in
    let (done, host) = write_to_remote s.host address st.rkey s.qp.config.pd_handle p.payload in
    let M = Moves s.qp.rq_psn in
    if-cases M (length p.payload == 0) _ _ (λ e. accept_payload-Moves s p st)
      (λ e.
        if-cases M (not done) _ _ (λ f. refl)
          (λ f. accept_payload-Moves (record s { host = host }) p st))

write_checked-Moves :
    (s : Site WriteProcessor) (p : RdmaPacketParser) (st : WriteMessageState)
    → Moves s.qp.rq_psn (write_checked s p st)
unfolding write_checked put_state
write_checked-Moves s p st =
    let starts = opcode_is_first p.bth.opcode || opcode_is_only p.bth.opcode in
    let M = Moves s.qp.rq_psn in
    if-cases M (not st.in_progress) _ _ (λ e. refl)
      (λ e.
        if-cases M (not starts && not (st.expected_psn == p.bth.psn)) _ _ (λ f. refl)
          (λ f. write_payload-Moves s p st))

write_started-Moves :
    (s : Site WriteProcessor) (p : RdmaPacketParser) → Moves s.qp.rq_psn (write_started s p)
unfolding write_started put_state
write_started-Moves s p =
    let (valid, table) =
      validate_rkey s.host.mr_table p.reth.rkey s.qp.config.pd_handle p.reth.virtual_address
        p.reth.dma_length true in
    let s' : Site WriteProcessor = record s { host = record (s.host) { mr_table = table } } in
    let M = Moves s.qp.rq_psn in
    if-cases M (not p.has_reth) _ _ (λ e. refl)
      (λ e.
        if-cases M (not valid) _ _ (λ f. refl)
          (λ f. write_checked-Moves s' p (begin_message (write_state s) p.reth p.bth.psn)))

-- The expected number moves by one with a packet that is accepted, and also with one that is not accepted
-- and completes its message; with any other packet it stays.
pub process_write-Moves :
    (s : Site WriteProcessor) (p : RdmaPacketParser) → Moves s.qp.rq_psn (process_write_packet s p)
unfolding process_write_packet
process_write-Moves s p =
    let starts = opcode_is_first p.bth.opcode || opcode_is_only p.bth.opcode in
    let M = Moves s.qp.rq_psn in
    if-cases M (not (is_write p.bth.opcode)) _ _ (λ e. refl)
      (λ e.
        if-cases M (not (can_receive s.qp)) _ _ (λ f. refl)
          (λ f.
            if-cases M (not (p.bth.psn == s.qp.rq_psn)) _ _ (λ g. refl)
              (λ g.
                if-cases M starts _ _ (λ h. write_started-Moves s p)
                  (λ h. write_checked-Moves s p (write_state s)))))

-- The last packet of a WRITE with immediate, where no receive request is posted, is refused though it moves
-- the expected number.
pub accept_payload-refuses :
    (s : Site WriteProcessor) (p : RdmaPacketParser) (st : WriteMessageState)
    → s.qp.recv_queue ≡ []
    → p.has_immediate ≡ true
    → ends_message p ≡ true
    → let (r, s') = accept_payload s p st in
      (r.success ≡ false)
      × (r.syndrome ≡ rnr_nak)
      × (s'.qp.rq_psn ≡ advance_psn s.qp.rq_psn 1)
      × (s'.host ≡ s.host)
unfolding accept_payload after_packet put_state count_written notify consume_recv advance_recv_psn
    record_packet_received
accept_payload-refuses s p st empty imm ends = rw ends (
    rw imm (elim (Bool-cases (can_receive s.qp)) [
      | inl able ↦ rw able (rw empty (refl, refl, refl, refl))
      | inr unable ↦ rw unable (refl, refl, refl, refl)
    ]))
