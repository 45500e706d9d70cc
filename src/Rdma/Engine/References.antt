-- ===== src/Rdma/Engine/References.antt =====
-- What every call of `RdmaEngine` of src/rocev2/engine.cpp keeps: a queue pair's completion queues exist, and a
-- queue pair stands under its own number.
use smart_nic.Rdma.Wqe.{RdmaCqe}
use mathlib.Core.Option.{some-injective}
use smart_nic.Rdma.CompletionQueue.{post}
use smart_nic.Base.Assoc.{Holds, lookup, lookup-insert}
use smart_nic.Rdma.QueuePair.{RdmaQpConfig, RdmaQueuePair}
use smart_nic.Rdma.Engine.{RdmaEngine, deliver_cqe, put_qp}
use smart_nic.Base.{
  true, false, refl, none, some, [], ◌∷◌, ℕ, subst, ◌∙◌, ◌≡◌, is_some, sym, ap, Option-cases, inl,
  inr, Bool-cases, ◌==◌, arith,
}
pub mod Processors
pub mod Answers
pub mod Packets
pub mod Posts
pub mod Tables
pub mod Calls

module _ {D : Type 0} where
  abbrev pub Exists : RdmaEngine D → ℕ → Type 0
  Exists e cq_number = is_some (lookup cq_number e.cqs) ≡ true

  -- The completion queues that a configuration names exist.
  abbrev pub Serves : RdmaEngine D → RdmaQpConfig → Type 0
  Serves e c = Exists e c.send_cq_number × Exists e c.recv_cq_number

  -- Of every queue pair.
  pub record IsLinked (e : RdmaEngine D) : Type 0 where
    pub served : Holds (λ (q : RdmaQueuePair). Serves e q.config) e.qps
    pub numbered : (key : ℕ) (q : RdmaQueuePair) → lookup key e.qps ≡ some q → q.qp_number ≡ key

  -- A call that keeps the completion queues, and at most replaces a queue pair by one with its number and its
  -- configuration, keeps the links.
  pub record Preserves (e e' : RdmaEngine D) : Type 0 where
    pub cqs_stay : (cq_number : ℕ) → Exists e cq_number → Exists e' cq_number
    pub qps_stay :
        (key : ℕ) (q' : RdmaQueuePair)
        → lookup key e'.qps ≡ some q'
        → (q : RdmaQueuePair) × (lookup key e.qps ≡ some q)
          × (q'.qp_number ≡ q.qp_number)
          × (q'.config ≡ q.config)

  pub Preserves-IsLinked : (e e' : RdmaEngine D) → Preserves e e' → IsLinked e → IsLinked e'
  Preserves-IsLinked e e' p v = record {
    served = λ key q' found.
        let (q, old, number, config) = p.qps_stay key q' found in
        let s = v.served key q old in
        subst (Serves e') (sym config)
          (p.cqs_stay q.config.send_cq_number s.0, p.cqs_stay q.config.recv_cq_number s.1);
    numbered = λ key q' found.
        let (q, old, number, config) = p.qps_stay key q' found in number ∙ v.numbered key q old;
  }

  pub Preserves-refl : (e : RdmaEngine D) → Preserves e e
  Preserves-refl e = record {
    cqs_stay = λ n h. h;
    qps_stay = λ key q found. (q, found, refl, refl);
  }

  pub Preserves-trans : (e f g : RdmaEngine D) → Preserves e f → Preserves f g → Preserves e g
  Preserves-trans e f g p r = record {
    cqs_stay = λ n h. r.cqs_stay n (p.cqs_stay n h);
    qps_stay = λ key q found.
        let (q1, found1, n1, c1) = r.qps_stay key q found in
        let (q0, found0, n0, c0) = p.qps_stay key q1 found1 in (q0, found0, n1 ∙ n0, c1 ∙ c0);
  }

  -- Nothing of the tables changes.
  pub same_tables : (e e' : RdmaEngine D) → e'.cqs ≡ e.cqs → e'.qps ≡ e.qps → Preserves e e'
  same_tables e e' c q = record {
    cqs_stay = λ n h. rw c h;
    qps_stay = λ key q' found. (q', (ap (lookup key) (sym q)) ∙ found, refl, refl);
  }

  pub put_qp-Preserves :
      (e : RdmaEngine D) (key : ℕ) (q q' : RdmaQueuePair)
      → lookup key e.qps ≡ some q
      → q'.qp_number ≡ q.qp_number
      → q'.config ≡ q.config
      → Preserves e (put_qp e key q')
  put_qp-Preserves e key q q' found number config = record {
    cqs_stay = λ n h. h;
    qps_stay = λ k r at.
        let there = sym (lookup-insert key k q' e.qps) ∙ at in
        elim (Bool-cases (key == k)) [
          | inl same ↦
              let is_q' : q' ≡ r = some-injective q' r (rw same at there) in
              let is_key : key ≡ k = ground arith in
              (q, rw (← is_key) found, rw (← is_q') number, rw (← is_q') config)
          | inr other ↦ (r, rw other at there, refl, refl)
        ];
  }

  -- A processor's changes to itself, the host and the queue pair.
  pub handled :
      (e e' : RdmaEngine D) (key : ℕ) (q q' : RdmaQueuePair)
      → e'.cqs ≡ e.cqs
      → e'.qps ≡ e.qps
      → lookup key e.qps ≡ some q
      → q'.qp_number ≡ q.qp_number
      → q'.config ≡ q.config
      → Preserves e (put_qp e' key q')
  handled e e' key q q' c s found number config =
      Preserves-trans e e' (put_qp e' key q') (same_tables e e' c s)
        (put_qp-Preserves e' key q q' (ap (lookup key) s ∙ found) number config)

  pub deliver_cqe-Preserves :
      (e : RdmaEngine D) (cq_number : ℕ) (entry : RdmaCqe)
      → Preserves e (deliver_cqe e cq_number entry)
  unfolding deliver_cqe
  deliver_cqe-Preserves e cq_number entry = elim (Option-cases (lookup cq_number e.cqs)) [
    | inl missing ↦ rw (deliver_cqe, missing) (Preserves-refl e)
    | inr (queue, found) ↦
        rw (deliver_cqe, found)
          (record {
            cqs_stay =
                λ n h. ground (arith, lookup-insert cq_number n (post queue entry).1 e.cqs, h);
            qps_stay = λ key q at. (q, at, refl, refl);
          })
  ]
