-- ===== src/Rdma/Engine/References/Answers.antt =====
-- What the handlers of src/rocev2/engine.cpp send and deliver keeps the links between queue pairs and completion
-- queues.
use smart_nic.Rdma.Engine.References.{
  Preserves, same_tables, Preserves-trans, deliver_cqe-Preserves, Preserves-refl, put_qp-Preserves,
}
use smart_nic.Rdma.Wqe.{AethSyndrome, RdmaCqe, WqeStatus, success}
use smart_nic.Base.Assoc.{lookup}
use smart_nic.Rdma.Engine.{RdmaEngine, queue_outgoing_packet, deliver_cqe, put_qp, count_sent}
use smart_nic.Rdma.Engine.Incoming.{
  generate_ack, answer, generate_nak, is_ack, queue_responses, deliver_all, fail_with, ack_cqe,
  to_error,
}
use smart_nic.Rdma.QueuePair.{RdmaQueuePair, RdmaQpModifyParams}
use smart_nic.Rdma.BitFields.{BitFields}
use smart_nic.Rdma.QueuePair.Work.{modify}
use smart_nic.Base.{
  refl, none, some, [], ◌∷◌, ℕ, ◌≡◌, Bool, arith, Option, if◌then◌else◌, if-cases, not,
  Option-cases, inl, List, inr, ◌∙◌,
}

pub modify-Same :
    (q : RdmaQueuePair) (p : RdmaQpModifyParams)
    → ((modify q p).1.qp_number ≡ q.qp_number) × ((modify q p).1.config ≡ q.config)
unfolding modify
modify-Same q p = ground arith

module _ {D : Type 0} where
  pub deliver_cqe-qps :
      (f : RdmaEngine D) (cq : ℕ) (entry : RdmaCqe) (key : ℕ)
      → lookup key (deliver_cqe f cq entry).qps ≡ lookup key f.qps
  unfolding deliver_cqe
  deliver_cqe-qps f cq entry key = elim (Option-cases (lookup cq f.cqs)) [
    | inl missing ↦ rw (deliver_cqe, missing) refl
    | inr (queue, found) ↦ rw (deliver_cqe, found) refl
  ]

  pub queue_responses-Preserves :
      (f : RdmaEngine D) (q : RdmaQueuePair) (packets : List (List ℕ))
      → Preserves f (queue_responses f q packets)
  unfolding queue_responses queue_outgoing_packet
  queue_responses-Preserves f q [] = Preserves-refl f
  queue_responses-Preserves f q (packet ∷ packets) =
      let next = count_sent (queue_outgoing_packet f packet q) 1 in
      Preserves-trans f next (queue_responses next q packets) (same_tables f next refl refl)
        (queue_responses-Preserves next q packets)

  pub deliver_all-Preserves :
      (f : RdmaEngine D) (q : RdmaQueuePair) (ids : List ℕ) → Preserves f (deliver_all f q ids)
  unfolding deliver_all
  deliver_all-Preserves f q [] = Preserves-refl f
  deliver_all-Preserves f q (id ∷ ids) =
      let next = deliver_cqe f q.config.send_cq_number (ack_cqe id q.qp_number success) in
      Preserves-trans f next (deliver_all next q ids)
        (deliver_cqe-Preserves f q.config.send_cq_number (ack_cqe id q.qp_number success))
        (deliver_all-Preserves next q ids)

  pub fail_with-Preserves :
      (f : RdmaEngine D) (key : ℕ) (q : RdmaQueuePair)
      → lookup key f.qps ≡ some q
      → (status : Option WqeStatus) → Preserves f (fail_with f key q status)
  unfolding fail_with
  fail_with-Preserves f key q there none = Preserves-refl f
  fail_with-Preserves f key q there (some status) =
      let entry = ack_cqe 0 q.qp_number status in
      let next = deliver_cqe f q.config.send_cq_number entry in
      let same = modify-Same q to_error in
      Preserves-trans f next (put_qp next key (modify q to_error).1)
        (deliver_cqe-Preserves f q.config.send_cq_number entry)
        (put_qp-Preserves next key q (modify q to_error).1
          (deliver_cqe-qps f q.config.send_cq_number entry key ∙ there) same.0 same.1)

module _ {D : Type 0} (bits : BitFields) where
  pub generate_ack-Preserves :
      (e : RdmaEngine D) (q : RdmaQueuePair) (psn : ℕ) (s : AethSyndrome)
      → Preserves e (generate_ack bits e q psn s)
  unfolding generate_ack queue_outgoing_packet
  generate_ack-Preserves e q psn s = same_tables e (generate_ack bits e q psn s) refl refl

  pub answer-Preserves :
      (e : RdmaEngine D) (q : RdmaQueuePair) (succeeded needs_ack : Bool) (psn : ℕ)
      (s : AethSyndrome) (cqe : Option RdmaCqe)
      → Preserves e (answer bits e q succeeded needs_ack psn s cqe)
  unfolding answer generate_nak
  answer-Preserves e q succeeded needs_ack psn s cqe =
      let acked = if needs_ack then generate_ack bits e q psn s else e in
      let to_acked : Preserves e acked =
        if-cases (Preserves e) needs_ack (generate_ack bits e q psn s) e
          (λ c. generate_ack-Preserves e q psn s) (λ c. Preserves-refl e) in
      if-cases (Preserves e) (not succeeded) _ _
        (λ c.
          if-cases (Preserves e) (not (is_ack s)) (generate_ack bits e q psn s) e
            (λ c. generate_ack-Preserves e q psn s) (λ c. Preserves-refl e))
        (λ c. delivered acked to_acked cqe)
    where
      delivered :
          (f : RdmaEngine D)
          → Preserves e f
          → (cqe : Option RdmaCqe)
          → Preserves e
              (elim cqe [ none ↦ f | some entry ↦ deliver_cqe f q.config.recv_cq_number entry ])
      delivered f h none = h
      delivered f h (some entry) =
          Preserves-trans e f (deliver_cqe f q.config.recv_cq_number entry) h
            (deliver_cqe-Preserves f q.config.recv_cq_number entry)
