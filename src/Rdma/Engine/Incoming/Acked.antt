-- ===== src/Rdma/Engine/Incoming/Acked.antt =====
-- `process_ack_packet` of src/rocev2/engine.cpp on an ACK of everything that is pending.
use smart_nic.Rdma.Psn.{psn_count, advance_psn}
use smart_nic.Base.Assoc.{lookup, lookup-insert_self}
use smart_nic.Rdma.Packet.Parser.{RdmaPacketParser}
use smart_nic.Rdma.Reliability.Cumulative.{
  Message, posted, span, HasPackets, process_ack_cumulative,
}
use smart_nic.Rdma.CompletionQueue.{RdmaCompletionQueue}
use smart_nic.Rdma.QueuePair.{RdmaQueuePair}
use smart_nic.Rdma.Reliability.{pending_of, ReliabilityManager, process_ack}
use smart_nic.Rdma.Engine.Incoming.{deliver_all, process_ack_packet, is_ack, ack_cqe}
use smart_nic.Rdma.Engine.{deliver_cqe, RdmaEngine}
use mathlib.Core.List.{append-nil, append_assoc}
use smart_nic.Base.{
  refl, none, some, [], ◌∷◌, length-append, ℕ, ◌≡◌, ◌<◌, arith, ◌+◌, Option-cases, ◌++◌, ◌≤◌, inl,
  inr, ◌∙◌, ap, ◌-◌, length, List, map,
}
use smart_nic.Rdma.Wqe.{success, ack, RdmaCqe}
use smart_nic.Rdma.CompletionQueue

module _ {D : Type 0} where
  -- A completion queue with room takes the entry.
  deliver_cqe-Adds :
      (e : RdmaEngine D) (cq : ℕ) (entry : RdmaCqe) (queue : RdmaCompletionQueue)
      → lookup cq e.cqs ≡ some queue
      → length queue.cqes < queue.depth
      → let e' = deliver_cqe e cq entry in
        (lookup cq e'.cqs ≡ some (CompletionQueue.post queue entry).1)
        × ((CompletionQueue.post queue entry).1.cqes ≡ queue.cqes ++ (entry ∷ []))
        × ((CompletionQueue.post queue entry).1.depth ≡ queue.depth)
        × (e'.reliability_manager ≡ e.reliability_manager)
  unfolding deliver_cqe CompletionQueue.post CompletionQueue.is_full
  deliver_cqe-Adds e cq entry queue found room =
      rw (deliver_cqe, found)
        (
          lookup-insert_self cq (CompletionQueue.post queue entry).1 e.cqs,
          ground arith,
          ground arith,
          refl,
        )

  -- The completions of the work requests `ids`, in order, at the end of the completion queue.
  deliver_all-Delivers :
      (e : RdmaEngine D) (q : RdmaQueuePair) (ids : List ℕ) (queue : RdmaCompletionQueue)
      → lookup q.config.send_cq_number e.cqs ≡ some queue
      → length queue.cqes + length ids ≤ queue.depth
      → (queue' : RdmaCompletionQueue) × (lookup q.config.send_cq_number (deliver_all e q ids).cqs
          ≡ some queue')
        × (queue'.cqes ≡ queue.cqes ++ map (λ (id : ℕ). ack_cqe id q.qp_number success) ids)
        × ((deliver_all e q ids).reliability_manager ≡ e.reliability_manager)
  unfolding deliver_all
  deliver_all-Delivers e q [] queue found room =
      (queue, found, rw (append-nil queue.cqes) refl, refl)
  deliver_all-Delivers e q (id ∷ ids) queue found room =
      let cq = q.config.send_cq_number in
      let entry = ack_cqe id q.qp_number success in
      let one = deliver_cqe-Adds e cq entry queue found (omega arith) in
      let queue1 = (CompletionQueue.post queue entry).1 in
      let fits : length queue1.cqes + length ids ≤ queue1.depth =
        rw (one.1, one.2, length-append queue.cqes (entry ∷ [])) (omega arith) in
      let rest = deliver_all-Delivers (deliver_cqe e cq entry) q ids queue1 one.0 fits in
      (
        rest.0,
        rest.1,
        rest.2
            ∙ (rw
                (
                  one.1,
                  append_assoc queue.cqes (entry ∷ [])
                      (map (λ (k : ℕ). ack_cqe k q.qp_number success) ids),
                )
                refl),
        rest.3 ∙ one.3,
      )

found_pending :
    (m : ReliabilityManager) (key base : ℕ) (ms : List Message)
    → 0 < span ms
    → pending_of m key ≡ posted base ms
    → lookup key m.pending_ops ≡ some (posted base ms)
unfolding posted pending_of span
found_pending m key base [] h e = absurd (omega arith)
found_pending m key base (k ∷ ms) h e = elim (Option-cases (lookup key m.pending_ops)) [
  | inl missing ↦ absurd (ground (arith, missing, e))
  | inr (ops, there) ↦ there ∙ ap some (rw (pending_of, there) at e)
]

pub idle_pending :
    (m : ReliabilityManager) (key base : ℕ)
    → lookup key m.pending_ops ≡ none
    → pending_of m key ≡ posted base []
unfolding pending_of posted
idle_pending m key base idle = rw (pending_of, idle) refl

-- An acknowledgement of all that is pending.
ack_of_all :
    (m : ReliabilityManager) (key base psn : ℕ) (ms : List Message)
    → base < psn_count
    → psn < psn_count
    → HasPackets ms
    → 0 < span ms
    → span ms ≤ 0x800000
    → pending_of m key ≡ posted base ms
    → advance_psn psn 1 ≡ advance_psn base (span ms)
    → let (result, m') = process_ack m key psn in
      (result.completed_wr_ids ≡ map (λ (m : Message). m.wr_id) ms)
      × (lookup key m'.pending_ops ≡ some [])
unfolding posted
ack_of_all m key base psn ms b p h some_sent few pending last =
    let d = span ms - 1 in
    let there = found_pending m key base ms some_sent pending in
    let all = append-nil ms in
    let done =
      process_ack_cumulative m key base d ms [] b (omega arith) (rw all h) (rw all few)
        (omega arith) tt (rw all there) in
    let same_psn : psn ≡ advance_psn base d = unfold advance_psn in omega (arith, last) in
    rw same_psn (done.1, done.2)

-- The messages `ms` are pending on a queue pair, in at most 2^23 packets, and its send completion queue has room for
-- them. An ACK of the last packet puts a successful completion for each message, in order, behind the entries of that
-- queue, and leaves nothing pending.
pub process_ack_packet-Completes :
    {D : Type 0} (e : RdmaEngine D) (key base : ℕ) (q : RdmaQueuePair) (ms : List Message)
    (queue : RdmaCompletionQueue) (p : RdmaPacketParser)
    → base < psn_count
    → HasPackets ms
    → 0 < span ms
    → span ms ≤ 0x800000
    → pending_of e.reliability_manager q.qp_number ≡ posted base ms
    → q.sq_psn ≡ advance_psn base (span ms)
    → lookup q.config.send_cq_number e.cqs ≡ some queue
    → length queue.cqes + length (map (λ (m : Message). m.wr_id) ms) ≤ queue.depth
    → p.aeth.syndrome ≡ ack
    → p.bth.psn < psn_count
    → advance_psn p.bth.psn 1 ≡ q.sq_psn
    → let e' = process_ack_packet e key q p in
      (queue' : RdmaCompletionQueue) × (lookup q.config.send_cq_number e'.cqs ≡ some queue')
      × (queue'.cqes
          ≡ queue.cqes
            ++ map (λ (id : ℕ). ack_cqe id q.qp_number success) (map (λ (m : Message). m.wr_id) ms))
      × (lookup q.qp_number e'.reliability_manager.pending_ops ≡ some [])
unfolding process_ack_packet is_ack
process_ack_packet-Completes {D} e key base q ms queue p b h some_sent few pending next found room
      acked psn_in last =
    let answered =
      ack_of_all e.reliability_manager q.qp_number base p.bth.psn ms b psn_in h some_sent few
        pending (last ∙ next) in
    let (result, manager) = process_ack e.reliability_manager q.qp_number p.bth.psn in
    let delivered =
      deliver_all-Delivers (record e { reliability_manager = manager }) q result.completed_wr_ids
        queue found (rw answered.0 room) in
    rw (process_ack_packet, acked)
      (
        delivered.0,
        delivered.1,
        delivered.2 ∙ (rw answered.0 refl),
        ap (λ (r : ReliabilityManager). lookup q.qp_number r.pending_ops) delivered.3 ∙ answered.1,
      )
