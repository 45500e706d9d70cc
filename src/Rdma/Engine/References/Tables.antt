-- ===== src/Rdma/Engine/References/Tables.antt =====
-- The resource calls of `RdmaEngine` of src/rocev2/engine.cpp keep the links between the queue pairs and the
-- completion queues.
use smart_nic.Rdma.Wqe.{RdmaCqe}
use smart_nic.Rdma.Engine.References.{
  Preserves, IsLinked, Preserves-refl, same_tables, Preserves-IsLinked, Serves,
}
use smart_nic.Rdma.QueuePair.{RdmaQpConfig, RdmaQpModifyParams, RdmaQueuePair}
use mathlib.Core.Option.{some-injective}
use smart_nic.Rdma.QueuePair
use smart_nic.Rdma.CompletionQueue
use smart_nic.Rdma.PdTable.{is_valid}
use smart_nic.Base.Assoc.{lookup, Holds, lookup-insert, lookup-erase, insert-Holds, insert}
use smart_nic.Rdma.Engine.{RdmaEngine, count_error}
use smart_nic.Rdma.MrTable.{AccessFlags}
use smart_nic.Rdma.Engine.Resources.{
  create_cq, poll_cq, cq_in_use, destroy_cq, create_qp, uses_cq, create_pd, destroy_pd, register_mr,
  deregister_mr, destroy_qp, has_resources,
}
use smart_nic.Base.{
  false, refl, [], ◌∷◌, ℕ, List, if-cases, Option, ◌≡◌, not, ◌≢◌, leb, arith, length, Bool-cases,
  Bool, Option-cases, inl, inr, ◌==◌, subst, sym, ◌∙◌, ap, is_some,
}

-- A completion queue goes only if no queue pair names it.
unused :
    (number : ℕ) (qps : List (ℕ × RdmaQueuePair))
    → cq_in_use number qps ≡ false
    → Holds
        (λ (q : RdmaQueuePair).
          (q.config.send_cq_number ≢ number) × (q.config.recv_cq_number ≢ number))
        qps
unfolding cq_in_use uses_cq lookup
unused number [] free key q there = absurd (ground (arith, there))
unused number ((k, r) ∷ later) free key q there = elim (Bool-cases (uses_cq number r)) [
  | inl used ↦ absurd (ground (arith, used, free))
  | inr other ↦ elim (Bool-cases (k == key)) [
    | inl same_key ↦
        let is_q : r ≡ q = some-injective r q (rw same_key at there) in
        subst
          (λ (x : RdmaQueuePair).
            (x.config.send_cq_number ≢ number) × (x.config.recv_cq_number ≢ number))
          is_q (λ c. ground (arith, other, c), λ c. ground (arith, other, c))
    | inr other_key ↦
        unused number later (rw (cq_in_use, other) at free) key q (rw other_key at there)
  ]
]

module _ {D : Type 0} where
  -- A queue pair that is made, or goes.
  pub create_cq-Preserves : (e : RdmaEngine D) (depth : ℕ) → Preserves e (create_cq e depth).1
  unfolding create_cq
  create_cq-Preserves e depth =
      if-cases (λ (r : Option ℕ × RdmaEngine D). Preserves e r.1) (not e.config.enabled) _ _
        (λ c. Preserves-refl e)
        (λ c.
          if-cases (λ (r : Option ℕ × RdmaEngine D). Preserves e r.1)
            (leb e.config.max_cqs (length e.cqs)) _ _ (λ c. same_tables e (count_error e) refl refl)
            (λ c. record {
              cqs_stay = λ n h. ground (
                arith,
                lookup-insert e.next_cq_number n (CompletionQueue.create e.next_cq_number depth)
                    e.cqs,
                h,
              );
              qps_stay = λ key q at. (q, at, refl, refl);
            }))

  pub poll_cq-Preserves : (e : RdmaEngine D) (number n : ℕ) → Preserves e (poll_cq e number n).1
  unfolding poll_cq
  poll_cq-Preserves e number n =
      let P : List RdmaCqe × RdmaEngine D → Type 0 = λ r. Preserves e r.1 in
      elim (Option-cases (lookup number e.cqs)) [
        | inl missing ↦
            rw (poll_cq, missing)
              (if-cases P (not e.config.enabled) ([], e) ([], e) (λ c. Preserves-refl e)
                (λ c. Preserves-refl e))
        | inr (queue, found) ↦
            let (result, queue') = CompletionQueue.poll queue n in
            rw (poll_cq, found)
              (if-cases P (not e.config.enabled) ([], e)
                (result, record e { cqs = insert number queue' e.cqs }) (λ c. Preserves-refl e)
                (λ c. record {
                  cqs_stay = λ k h. ground (arith, lookup-insert number k queue' e.cqs, h);
                  qps_stay = λ key q there. (q, there, refl, refl);
                }))
      ]

  pub destroy_cq-IsLinked :
      (e : RdmaEngine D) (number : ℕ) → IsLinked e → IsLinked (destroy_cq e number).1
  unfolding destroy_cq
  destroy_cq-IsLinked e number v =
      let P : Bool × RdmaEngine D → Type 0 = λ r. IsLinked r.1 in
      if-cases P (not e.config.enabled) _ _ (λ c. v)
        (λ c.
          if-cases P (cq_in_use number e.qps) _ _ (λ c. v)
            (λ c. record {
              served = λ key q found.
                  let s = v.served key q found in
                  let n = unused number e.qps c key q found in
                  (
                    ground (arith, lookup-erase number q.config.send_cq_number e.cqs, s.0, n.0),
                    ground (arith, lookup-erase number q.config.recv_cq_number e.cqs, s.1, n.1),
                  );
              numbered = v.numbered;
            }))

  pub create_qp-IsLinked :
      (e : RdmaEngine D) (c : RdmaQpConfig) → IsLinked e → IsLinked (create_qp e c).1
  unfolding create_qp
  create_qp-IsLinked e c v =
      let P : Option ℕ × RdmaEngine D → Type 0 = λ r. IsLinked r.1 in
      let counted =
        Preserves-IsLinked e (count_error e) (same_tables e (count_error e) refl refl) v in
      let n = e.next_qp_number in
      let made = QueuePair.create n c in
      if-cases P (not e.config.enabled) _ _ (λ k. v)
        (λ k.
          if-cases P (leb e.config.max_qps (length e.qps)) _ _ (λ k. counted)
            (λ k.
              if-cases P (not (has_resources e c)) _ _ (λ k. counted)
                (λ k. record {
                  served =
                      insert-Holds (λ (q : RdmaQueuePair). Serves e q.config) n made e.qps v.served
                        (unfold has_resources QueuePair.create in ground (arith, k));
                  numbered = λ key q found.
                      let there = sym (lookup-insert n key made e.qps) ∙ found in
                      elim (Bool-cases (n == key)) [
                        | inl same_key ↦
                            let is_q : made ≡ q = some-injective made q (rw same_key at there) in
                            let is_key : n ≡ key = ground arith in
                            ap (λ (r : RdmaQueuePair). r.qp_number) (sym is_q)
                            ∙ (unfold QueuePair.create in is_key)
                        | inr other_key ↦ v.numbered key q (rw other_key at there)
                      ];
                })))

  pub create_pd-Preserves : (e : RdmaEngine D) → Preserves e (create_pd e).1
  unfolding create_pd
  create_pd-Preserves e =
      if-cases (λ (r : Option ℕ × RdmaEngine D). Preserves e r.1) (not e.config.enabled) _ _
        (λ c. Preserves-refl e) (λ c. same_tables e _ refl refl)

  pub register_mr-Preserves :
      (e : RdmaEngine D) (handle address size : ℕ) (access : AccessFlags)
      → Preserves e (register_mr e handle address size access).1
  unfolding register_mr
  register_mr-Preserves e handle address size access =
      let P : Option ℕ × RdmaEngine D → Type 0 = λ r. Preserves e r.1 in
      if-cases P (not e.config.enabled) _ _ (λ c. Preserves-refl e)
        (λ c.
          if-cases P (not (is_valid e.pd_table handle)) _ _
            (λ c. same_tables e (count_error e) refl refl) (λ c. same_tables e _ refl refl))

  pub removes-Preserves :
      (e : RdmaEngine D) (n : ℕ)
      → Preserves e (destroy_pd e n).1 × Preserves e (deregister_mr e n).1
  unfolding destroy_pd deregister_mr
  removes-Preserves e n =
      let P : Bool × RdmaEngine D → Type 0 = λ r. Preserves e r.1 in
      (
        if-cases P (not e.config.enabled) _ _ (λ c. Preserves-refl e)
            (λ c. same_tables e _ refl refl),
        if-cases P (not e.config.enabled) _ _ (λ c. Preserves-refl e)
            (λ c. same_tables e _ refl refl),
      )

  pub destroy_qp-Preserves : (e : RdmaEngine D) (n : ℕ) → Preserves e (destroy_qp e n).1
  unfolding destroy_qp
  destroy_qp-Preserves e n =
      let P : Bool × RdmaEngine D → Type 0 = λ r. Preserves e r.1 in
      if-cases P (not e.config.enabled) _ _ (λ c. Preserves-refl e)
        (λ c.
          if-cases P (not (is_some (lookup n e.qps))) _ _ (λ c. Preserves-refl e)
            (λ c. record {
              cqs_stay = λ k h. h;
              qps_stay =
                  λ key q found. (q, ground (arith, lookup-erase n key e.qps, found), refl, refl);
            }))
