-- ===== src/Rdma/Reliability/Retries.antt =====
-- Bounded retransmission in `ReliabilityManager`: what any sequence of its calls keeps.
use smart_nic.Base.Assoc.{Holds, erase-Holds, insert-Holds, empty-Holds, lookup}
use smart_nic.Rdma.Reliability.Nak.{
  nak_sequence, nak_receiver, give_up_from, nak_cases, NakScan, nak_fatal, process_nak,
}
use smart_nic.Rdma.Reliability.{
  ReliabilityConfig, ReliabilityManager, PendingAck, WqeOpcode, add_pending, complete_up_to,
  still_waiting, retry_op, scan_timeouts, process_ack, ReliabilityStats, check_timeouts, timed_out,
  reset, clear_pending, pending_of, new_pending, create,
}
use smart_nic.Base.{
  true, refl, some, [], ℕ, max, List, ◌≡◌, ◌≤◌, ◌∷◌, arith, ◌++◌, if-cases, Option-cases, inl, inr,
}
use smart_nic.Rdma.Wqe.{
  ack, rnr_nak, psn_seq_error, invalid_request, nak_remote_access, nak_remote_op, AethSyndrome,
}

abbrev pub retry_limit : ReliabilityConfig → ℕ
retry_limit c = max c.max_retries c.rnr_retry_count

-- An operation that waits has not been retried more often than the configuration allows.
abbrev pub IsCapped : ReliabilityConfig → PendingAck → Type 0
IsCapped c op = op.waiting_for_ack ≡ true → op.retry_count ≤ retry_limit c

abbrev pub AllCapped : ReliabilityConfig → List PendingAck → Type 0
AllCapped c [] = Unit
AllCapped c (op ∷ ops) = IsCapped c op × AllCapped c ops

-- The calls that change a manager.
pub data Call : Type 0 where
  adds : ℕ → ℕ → ℕ → ℕ → WqeOpcode → ℕ → Call
  acks : ℕ → ℕ → Call
  naks : ℕ → ℕ → AethSyndrome → Call
  checks : ℕ → ℕ → Call
  resets : Call
  clears : ℕ → Call

unfoldable pub step : ReliabilityManager → Call → ReliabilityManager
step m (adds qp start_psn end_psn wr_id opcode time) =
    add_pending m qp start_psn end_psn wr_id opcode time
step m (acks qp psn) = (process_ack m qp psn).1
step m (naks qp psn syndrome) = (process_nak m qp psn syndrome).1
step m (checks qp now) = (check_timeouts m qp now).1
step m resets = reset m
step m (clears qp) = clear_pending m qp

unfoldable pub run : ReliabilityManager → List Call → ReliabilityManager
unfolding step
run m [] = m
run m (c ∷ cs) = run (step m c) cs

-- For every queue pair.
abbrev pub Bounded : ReliabilityConfig → ReliabilityManager → Type 0
Bounded c m = (m.config ≡ c) × Holds (AllCapped c) m.pending_ops

module _ (c : ReliabilityConfig) where
  AllCapped-append :
      (xs ys : List PendingAck) → AllCapped c xs → AllCapped c ys → AllCapped c (xs ++ ys)
  AllCapped-append [] ys h k = k
  AllCapped-append (x ∷ xs) ys h k = (h.0, AllCapped-append xs ys h.1 k)

  complete_up_to-AllCapped :
      (psn : ℕ) (ops : List PendingAck) → AllCapped c ops → AllCapped c (complete_up_to psn ops).0
  unfolding complete_up_to
  complete_up_to-AllCapped psn [] h = tt
  complete_up_to-AllCapped psn (op ∷ ops) h =
      ground (arith, h.0, complete_up_to-AllCapped psn ops h.1)

  still_waiting-AllCapped :
      (ops : List PendingAck) → AllCapped c ops → AllCapped c (still_waiting ops)
  unfolding still_waiting
  still_waiting-AllCapped [] h = tt
  still_waiting-AllCapped (op ∷ ops) h = ground (arith, h.0, still_waiting-AllCapped ops h.1)

  retry_op-IsCapped : (now : ℕ) (op : PendingAck) → IsCapped c (retry_op c now op)
  unfolding retry_op
  retry_op-IsCapped now op = ground arith

  scan_timeouts-AllCapped :
      (now : ℕ) (ops : List PendingAck) (stats : ReliabilityStats)
      → AllCapped c ops
      → AllCapped c (scan_timeouts c now stats ops).0
  unfolding scan_timeouts
  scan_timeouts-AllCapped now [] stats h = tt
  scan_timeouts-AllCapped now (op ∷ ops) stats h = (
    if-cases (IsCapped c) (timed_out c now op) (retry_op c now op) op
        (λ e. retry_op-IsCapped now op) (λ e. h.0),
    scan_timeouts-AllCapped now ops _ h.1,
  )

  nak_sequence-AllCapped :
      (psn : ℕ) (ops : List PendingAck) (scan : NakScan)
      → AllCapped c ops
      → AllCapped c (nak_sequence c psn ops scan).operations
  unfolding nak_sequence
  nak_sequence-AllCapped psn [] scan h = tt
  nak_sequence-AllCapped psn (op ∷ ops) scan h =
      (ground (arith, h.0), nak_sequence-AllCapped psn ops _ h.1)

  nak_receiver-AllCapped :
      (psn : ℕ) (ops : List PendingAck) (scan : NakScan)
      → AllCapped c ops
      → AllCapped c (nak_receiver c psn ops scan).operations
  unfolding nak_receiver
  nak_receiver-AllCapped psn [] scan h = tt
  nak_receiver-AllCapped psn (op ∷ ops) scan h =
      (ground (arith, h.0), nak_receiver-AllCapped psn ops _ h.1)

  give_up_from-AllCapped :
      (psn : ℕ) (ops : List PendingAck) → AllCapped c ops → AllCapped c (give_up_from psn ops)
  unfolding give_up_from
  give_up_from-AllCapped psn [] h = tt
  give_up_from-AllCapped psn (op ∷ ops) h =
      (ground (arith, h.0), give_up_from-AllCapped psn ops h.1)

  nak_cases-AllCapped :
      (psn : ℕ) (s : AethSyndrome) (ops : List PendingAck) (stats : ReliabilityStats)
      → AllCapped c ops
      → AllCapped c (nak_cases c psn s ops stats).operations
  unfolding nak_cases nak_fatal
  nak_cases-AllCapped psn ack ops stats h = h
  nak_cases-AllCapped psn (AethSyndrome.unlisted_syndrome code) ops stats h = h
  nak_cases-AllCapped psn psn_seq_error ops stats h = nak_sequence-AllCapped psn ops _ h
  nak_cases-AllCapped psn rnr_nak ops stats h = nak_receiver-AllCapped psn ops _ h
  nak_cases-AllCapped psn invalid_request ops stats h = give_up_from-AllCapped psn ops h
  nak_cases-AllCapped psn nak_remote_access ops stats h = give_up_from-AllCapped psn ops h
  nak_cases-AllCapped psn nak_remote_op ops stats h = give_up_from-AllCapped psn ops h

module _ (c : ReliabilityConfig) (m : ReliabilityManager) (v : Bounded c m) where
  pending_of-AllCapped : (qp : ℕ) → AllCapped c (pending_of m qp)
  unfolding pending_of
  pending_of-AllCapped qp = elim (Option-cases (lookup qp m.pending_ops)) [
    | inl e ↦ rw (pending_of, AllCapped, e) tt
    | inr (ops, e) ↦ rw (pending_of, AllCapped, e) (v.1 qp ops e)
  ]

  add_pending-Bounded :
      (qp start_psn end_psn wr_id : ℕ) (opcode : WqeOpcode) (time : ℕ)
      → Bounded c (add_pending m qp start_psn end_psn wr_id opcode time)
  unfolding add_pending new_pending
  add_pending-Bounded qp start_psn end_psn wr_id opcode time = (
    v.0,
    insert-Holds (AllCapped c) qp _ m.pending_ops v.1
        (AllCapped-append c (pending_of m qp) _ (pending_of-AllCapped qp) ((λ e. omega arith), tt)),
  )

  process_ack-Bounded : (qp psn : ℕ) → Bounded c (process_ack m qp psn).1
  unfolding process_ack
  process_ack-Bounded qp psn = elim (Option-cases (lookup qp m.pending_ops)) [
    | inl e ↦ rw (process_ack, e) v
    | inr (ops, e) ↦
        rw (process_ack, e)
          (
            v.0,
            insert-Holds (AllCapped c) qp _ m.pending_ops v.1 (
                still_waiting-AllCapped c (complete_up_to psn ops).0
                  (complete_up_to-AllCapped c psn ops (v.1 qp ops e))),
          )
  ]

  process_nak-Bounded : (qp psn : ℕ) (s : AethSyndrome) → Bounded c (process_nak m qp psn s).1
  unfolding process_nak
  process_nak-Bounded qp psn s = elim (Option-cases (lookup qp m.pending_ops)) [
    | inl e ↦ rw (process_nak, e) v
    | inr (ops, e) ↦
        rw (process_nak, e)
          (
            v.0,
            insert-Holds (AllCapped c) qp _ m.pending_ops v.1
                (rw v.0 (nak_cases-AllCapped c psn s ops _ (v.1 qp ops e))),
          )
  ]

  check_timeouts-Bounded : (qp now : ℕ) → Bounded c (check_timeouts m qp now).1
  unfolding check_timeouts
  check_timeouts-Bounded qp now = elim (Option-cases (lookup qp m.pending_ops)) [
    | inl e ↦ rw (check_timeouts, e) v
    | inr (ops, e) ↦
        rw (check_timeouts, e)
          (
            v.0,
            insert-Holds (AllCapped c) qp _ m.pending_ops v.1
                (rw v.0 (scan_timeouts-AllCapped c now ops m.stats (v.1 qp ops e))),
          )
  ]

  step-Bounded : (call : Call) → Bounded c (step m call)
  unfolding step reset clear_pending
  step-Bounded (adds qp start_psn end_psn wr_id opcode time) =
      add_pending-Bounded qp start_psn end_psn wr_id opcode time
  step-Bounded (acks qp psn) = process_ack-Bounded qp psn
  step-Bounded (naks qp psn s) = process_nak-Bounded qp psn s
  step-Bounded (checks qp now) = check_timeouts-Bounded qp now
  step-Bounded resets = (v.0, empty-Holds (AllCapped c))
  step-Bounded (clears qp) = (v.0, erase-Holds (AllCapped c) qp m.pending_ops v.1)

run-Bounded :
    (c : ReliabilityConfig) (m : ReliabilityManager) (calls : List Call)
    → Bounded c m
    → Bounded c (run m calls)
unfolding run
run-Bounded c m [] v = v
run-Bounded c m (call ∷ calls) v = run-Bounded c (step m call) calls (step-Bounded c m v call)

-- After any calls on a new manager, an operation that waits for its acknowledgement has been retried at most
-- as often as the larger of the two limits of the configuration allows, on every queue pair.
pub run-AllCapped :
    (c : ReliabilityConfig) (calls : List Call) (qp : ℕ) (ops : List PendingAck)
    → lookup qp (run (create c) calls).pending_ops ≡ some ops
    → AllCapped c ops
unfolding create
run-AllCapped c calls qp ops e =
    (run-Bounded c (create c) calls (refl, empty-Holds (AllCapped c))).1 qp ops e
