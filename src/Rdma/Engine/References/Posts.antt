-- ===== src/Rdma/Engine/References/Posts.antt =====
-- `modify_qp`, `post_send` and `post_recv` of src/rocev2/engine.cpp keep the links between queue pairs and completion
-- queues.
use smart_nic.Rdma.Engine.Posting.Generators.{generate-Numbers}
use smart_nic.Rdma.Engine.References.Answers.{modify-Same}
use smart_nic.Rdma.Engine.Posting.Tracking.{queue_packets-Queues, generate-Leaves}
use smart_nic.Rdma.Reliability.{add_pending}
use smart_nic.Rdma.Engine.References.Processors.{Keeps}
use smart_nic.Rdma.Engine.Posting.{post_send, post_recv}
use smart_nic.Base.Assoc.{lookup}
use smart_nic.Rdma.Engine.References.{
  Preserves, put_qp-Preserves, handled, Preserves-refl, Preserves-trans, same_tables,
}
use smart_nic.Rdma.BitFields.{BitFields}
use smart_nic.Rdma.Engine.{RdmaEngine, put_qp, count_error}
use smart_nic.Rdma.Wqe.{RecvWqe, SendWqe}
use smart_nic.Rdma.Engine.Posting.{posted_recv, track, post_to, Generated, last_psn, generate}
use smart_nic.Rdma.Engine.Resources.{modify_qp}
use smart_nic.Rdma.QueuePair.{RdmaQueuePair, RdmaQpModifyParams}
use smart_nic.Rdma.QueuePair.Work.{modify, can_send}
use smart_nic.Base.{
  false, refl, some, ◌≡◌, ℕ, arith, Bool, Option-cases, inl, if-cases, not, inr, length, ◌==◌,
}
use smart_nic.Rdma.QueuePair.Work

post_recv-Same :
    (q : RdmaQueuePair) (w : RecvWqe)
    → ((Work.post_recv q w).1.qp_number ≡ q.qp_number) × ((Work.post_recv q w).1.config ≡ q.config)
unfolding Work.post_recv
post_recv-Same q w = ground arith

module _ {D : Type 0} where
  pub modify_qp-Preserves :
      (e : RdmaEngine D) (n : ℕ) (params : RdmaQpModifyParams)
      → Preserves e (modify_qp e n params).1
  unfolding modify_qp
  modify_qp-Preserves e n params =
      let P : Bool × RdmaEngine D → Type 0 = λ r. Preserves e r.1 in
      elim (Option-cases (lookup n e.qps)) [
        | inl missing ↦
            rw (modify_qp, missing)
              (if-cases P (not e.config.enabled) (false, e) (false, e) (λ c. Preserves-refl e)
                (λ c. Preserves-refl e))
        | inr (q, found) ↦
            let (done, q') = modify q params in
            let same = modify-Same q params in
            rw (modify_qp, found)
              (if-cases P (not e.config.enabled) (false, e) (done, put_qp e n q')
                (λ c. Preserves-refl e) (λ c. put_qp-Preserves e n q q' found same.0 same.1))
      ]

  posted_recv-Preserves :
      (e : RdmaEngine D) (n : ℕ) (q : RdmaQueuePair) (answer : Bool × RdmaQueuePair)
      → lookup n e.qps ≡ some q
      → answer.1.qp_number ≡ q.qp_number
      → answer.1.config ≡ q.config
      → Preserves e (posted_recv e n answer).1
  unfolding posted_recv
  posted_recv-Preserves e n q (done, q') found number config =
      let f = put_qp e n q' in
      let to_f = put_qp-Preserves e n q q' found number config in
      if-cases (λ (r : Bool × RdmaEngine D). Preserves e r.1) (not done) _ _
        (λ c. Preserves-trans e f (count_error f) to_f (same_tables f (count_error f) refl refl))
        (λ c. Preserves-trans e f _ to_f (same_tables f _ refl refl))

  pub post_recv-Preserves :
      (e : RdmaEngine D) (n : ℕ) (w : RecvWqe) → Preserves e (post_recv e n w).1
  unfolding post_recv
  post_recv-Preserves e n w =
      let P : Bool × RdmaEngine D → Type 0 = λ r. Preserves e r.1 in
      elim (Option-cases (lookup n e.qps)) [
        | inl missing ↦
            rw (post_recv, missing)
              (if-cases P (not e.config.enabled) (false, e) (false, e) (λ c. Preserves-refl e)
                (λ c. Preserves-refl e))
        | inr (q, found) ↦
            let same = post_recv-Same q w in
            rw (post_recv, found)
              (if-cases P (not e.config.enabled) (false, e) (posted_recv e n (Work.post_recv q w))
                (λ c. Preserves-refl e)
                (λ c. posted_recv-Preserves e n q (Work.post_recv q w) found same.0 same.1))
      ]

  track-Preserves :
      (e : RdmaEngine D) (n : ℕ) (q : RdmaQueuePair) (w : SendWqe) (g : Generated D)
      → lookup n e.qps ≡ some q
      → Keeps q g.qp
      → g.engine.cqs ≡ e.cqs
      → g.engine.qps ≡ e.qps
      → Preserves e (track n q.sq_psn w g).1
  unfolding track
  track-Preserves e n q w g found kept c s =
      let f = put_qp g.engine n g.qp in
      let to_f = handled e g.engine n q g.qp c s found kept.0 kept.1 in
      let tracked = record f {
        reliability_manager =
            add_pending f.reliability_manager n q.sq_psn (last_psn q.sq_psn (length g.packets))
              w.wr_id w.opcode 0;
      } in
      let queues = queue_packets-Queues tracked g.qp g.packets in
      if-cases (λ (r : Bool × RdmaEngine D). Preserves e r.1) (length g.packets == 0)
        (false, count_error f) _
        (λ c. Preserves-trans e f (count_error f) to_f (same_tables f (count_error f) refl refl))
        (λ c. Preserves-trans e f _ to_f (same_tables f _ queues.2 queues.1))

  pub post_send-Preserves :
      (bits : BitFields) (e : RdmaEngine D) (n : ℕ) (w : SendWqe)
      → Preserves e (post_send bits e n w).1
  unfolding post_send post_to
  post_send-Preserves bits e n w =
      let P : Bool × RdmaEngine D → Type 0 = λ r. Preserves e r.1 in
      elim (Option-cases (lookup n e.qps)) [
        | inl missing ↦
            rw (post_send, missing)
              (if-cases P (not e.config.enabled) (false, e) (false, e) (λ c. Preserves-refl e)
                (λ c. Preserves-refl e))
        | inr (q, found) ↦
            let g = generate bits e q w w.opcode in
            let leaves = generate-Leaves bits e q w w.opcode in
            let numbered = generate-Numbers bits e q w w.opcode in
            rw (post_send, found)
              (if-cases P (not e.config.enabled) (false, e) _ (λ c. Preserves-refl e)
                (λ c.
                  if-cases P (not (can_send q)) (false, count_error e) (track n q.sq_psn w g)
                    (λ c. same_tables e (count_error e) refl refl)
                    (λ c. track-Preserves e n q w g found numbered.0 leaves.2 leaves.1)))
      ]
