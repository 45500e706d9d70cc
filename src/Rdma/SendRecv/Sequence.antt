-- ===== src/Rdma/SendRecv/Sequence.antt =====
-- What the receiver of a SEND does to the sequence number it expects, whatever the packet.
use smart_nic.Rdma.QueuePair.Reliable.{advance_recv_psn}
use smart_nic.Rdma.Wqe.{RecvWqe, psn_seq_error}
use smart_nic.Rdma.Psn.{advance_psn, psn_count}
use smart_nic.Base.{◌≡◌, if◌then◌else◌, Option, some, true, none, refl, ℕ, arith, ◌<◌, ◌==◌, false}
use smart_nic.Rdma.Packet.Parser.{RdmaPacketParser}
use smart_nic.Rdma.QueuePair.{RdmaQueuePair}
use smart_nic.Rdma.SendRecv.{SendRecvProcessor, RecvResult, RecvMessageState}
use smart_nic.Rdma.SendRecv.Process.{
  recv_started, process_recv_packet, put_state, accept_payload, recv_payload, recv_checked, is_send,
  recv_state, begin_recv, nak, count_sequence,
}
use smart_nic.Rdma.QueuePair.Work.{consume_recv, record_packet_received, can_receive}
use smart_nic.Rdma.Transfer.{Site}

-- The expected number moves by one with a packet that is accepted, and stays with any other; the QP's
-- state stays.
abbrev Moves : RdmaQueuePair → RecvResult × Site SendRecvProcessor → Type 0
Moves q (r, s') =
    (s'.qp.rq_psn ≡ (if r.success then advance_psn q.rq_psn 1 else q.rq_psn))
    × (s'.qp.state ≡ q.state)

module _ (s : Site SendRecvProcessor) (p : RdmaPacketParser) (st : RecvMessageState) where
  recv_payload-Moves : Moves s.qp (recv_payload s p st)
  unfolding recv_payload accept_payload put_state advance_recv_psn record_packet_received
  recv_payload-Moves = ground arith

  recv_checked-Moves : Moves s.qp (recv_checked s p st)
  unfolding recv_checked put_state
  recv_checked-Moves = ground (arith, recv_payload-Moves)

consume_recv-kept :
    (q : RdmaQueuePair)
    → ((consume_recv q).1.rq_psn ≡ q.rq_psn) × ((consume_recv q).1.state ≡ q.state)
unfolding consume_recv
consume_recv-kept q = ground arith

recv_started-Moves :
    (s : Site SendRecvProcessor) (p : RdmaPacketParser) (c : Option RecvWqe × RdmaQueuePair)
    → Moves c.1 (recv_started s p c)
unfolding recv_started put_state
recv_started-Moves s p (none, q) = (refl, refl)
recv_started-Moves s p (some w, q) =
    recv_checked-Moves (record s { qp = q }) p (begin_recv (recv_state s) w p.bth.psn)

process_recv-Moves :
    (s : Site SendRecvProcessor) (p : RdmaPacketParser) → Moves s.qp (process_recv_packet s p)
unfolding process_recv_packet
process_recv-Moves s p =
    let started : Moves s.qp (recv_started s p (consume_recv s.qp)) =
      ground (arith, recv_started-Moves s p (consume_recv s.qp), consume_recv-kept s.qp) in
    ground (arith, started, recv_checked-Moves s p (recv_state s))

-- The expected number moves by one with a packet that is accepted and stays with any other; and what is
-- accepted is a SEND packet with that number, at a QP that can receive.
pub process_recv-sequence :
    (s : Site SendRecvProcessor) (p : RdmaPacketParser)
    → let (r, s') = process_recv_packet s p in
      (s'.qp.rq_psn ≡ (if r.success then advance_psn s.qp.rq_psn 1 else s.qp.rq_psn))
      × (r.success ≡ true
          → (is_send p.bth.opcode ≡ true) × (can_receive s.qp ≡ true) × (p.bth.psn ≡ s.qp.rq_psn))
unfolding process_recv_packet
process_recv-sequence s p = ((process_recv-Moves s p).0, λ ok. ground arith)

refused :
    (s : Site SendRecvProcessor) (p : RdmaPacketParser)
    → is_send p.bth.opcode ≡ true
    → can_receive s.qp ≡ true
    → (p.bth.psn == s.qp.rq_psn) ≡ false
    → process_recv_packet s p ≡ (nak psn_seq_error s.qp.rq_psn, count_sequence s)
unfolding process_recv_packet
refused s p sends able other = rw sends (rw able (rw other refl))

advance_psn-ne : (psn : ℕ) → psn < psn_count → (psn == advance_psn psn 1) ≡ false
unfolding advance_psn
advance_psn-ne psn h = ground arith

pub can_receive-state :
    (q q' : RdmaQueuePair) → q'.state ≡ q.state → can_receive q ≡ true → can_receive q' ≡ true
unfolding can_receive
can_receive-state q q' e able = rw e able

-- A packet that was accepted is refused when it comes again, with the number that is expected by then,
-- and the refusal changes nothing but the count of sequence errors.
pub process_recv-replayed :
    (s : Site SendRecvProcessor) (p : RdmaPacketParser)
    → s.qp.rq_psn < psn_count
    → (process_recv_packet s p).0.success ≡ true
    → let s' = (process_recv_packet s p).1 in
      process_recv_packet s' p ≡ (nak psn_seq_error (advance_psn s.qp.rq_psn 1), count_sequence s')
process_recv-replayed s p small ok =
    let s' = (process_recv_packet s p).1 in
    let (sends, able, here) = (process_recv-sequence s p).1 ok in
    let (moved, kept) = process_recv-Moves s p in
    let next : s'.qp.rq_psn ≡ advance_psn s.qp.rq_psn 1 = rw ok at moved in
    let other : (p.bth.psn == s'.qp.rq_psn) ≡ false =
      rw next (rw here (advance_psn-ne s.qp.rq_psn small)) in
    rw next at (refused s' p sends (can_receive-state s.qp s'.qp kept able) other)
