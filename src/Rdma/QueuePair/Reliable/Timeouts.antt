-- ===== src/Rdma/QueuePair/Reliable/Timeouts.antt =====
-- Timeouts and retransmission.
use smart_nic.Base.{
  ℕ, Bool, false, List, [], ◌∷◌, ◌≡◌, refl, ◌+◌, ◌&&◌, arith, length, ◌<◌, ◌==◌, if◌then◌else◌, ◌^◌,
  ◌||◌,
}
use smart_nic.Rdma.Wqe.{error}
use smart_nic.Rdma.QueuePair.{RdmaQueuePair, PendingOperation}
use smart_nic.Rdma.QueuePair.Reliable.{
  expired, resent, kept, scan_timeouts, check_timeouts, timeout_us,
}

-- The retries that a list of operations has left.
abbrev pub budget : List PendingOperation → ℕ
budget [] = 0
budget (op ∷ ops) = op.retry_count + budget ops

-- An expired operation without retries, reached with no such operation before it.
abbrev pub hopeless : ℕ → ℕ → List PendingOperation → Bool
hopeless timeout now [] = false
hopeless timeout now (op ∷ ops) =
    (expired timeout now op && op.retry_count == 0) || hopeless timeout now ops

scan-budget :
    (timeout now : ℕ) (ops : List PendingOperation)
    → let s = scan_timeouts timeout now ops in
      budget s.operations + length s.retransmits ≡ budget ops
unfolding scan_timeouts resent kept
scan-budget timeout now [] = refl
scan-budget timeout now (op ∷ ops) = ground (arith, scan-budget timeout now ops)

scan-exhausted :
    (timeout now : ℕ) (ops : List PendingOperation)
    → (scan_timeouts timeout now ops).exhausted ≡ hopeless timeout now ops
unfolding scan_timeouts resent kept
scan-exhausted timeout now [] = refl
scan-exhausted timeout now (op ∷ ops) = ground (arith, scan-exhausted timeout now ops)

scan-length :
    (timeout now : ℕ) (ops : List PendingOperation)
    → length (scan_timeouts timeout now ops).operations ≡ length ops
unfolding scan_timeouts resent kept
scan-length timeout now [] = refl
scan-length timeout now (op ∷ ops) = ground (arith, scan-length timeout now ops)

-- Every retransmission that `check_timeouts` asks for is paid with one retry of a pending
-- operation, and no operation is dropped or added; the queue pair moves to the error state exactly
-- when a pending operation has timed out with no retries left, and keeps its state otherwise.
pub check_timeouts-budget :
    (q : RdmaQueuePair) (now : ℕ)
    → let (wqes, q') = check_timeouts q now in
      (budget q'.pending_operations + length wqes ≡ budget q.pending_operations)
      × (length q'.pending_operations ≡ length q.pending_operations)
      × (q'.state
          ≡ (if hopeless (timeout_us q.config) now q.pending_operations then error else q.state))
unfolding check_timeouts
check_timeouts-budget q now =
    let timeout = timeout_us q.config in
    (
      scan-budget timeout now q.pending_operations,
      scan-length timeout now q.pending_operations,
      rw (scan-exhausted timeout now q.pending_operations),
    )

-- Right after a scan that did not break off, and before any time passes, a second scan finds
-- nothing to send: a timeout is never zero, and each resent operation is stamped anew.
scan-settled :
    (timeout now : ℕ) (ops : List PendingOperation)
    → 0 < timeout
    → now < 2 ^ 64
    → (scan_timeouts timeout now ops).exhausted ≡ false
    → scan_timeouts timeout now (scan_timeouts timeout now ops).operations ≡ record {
      operations = (scan_timeouts timeout now ops).operations;
      retransmits = [];
      exhausted = false;
    }
unfolding scan_timeouts resent kept expired
scan-settled timeout now [] h k e = refl
scan-settled timeout now (op ∷ ops) h k e = ground (arith, scan-settled timeout now ops h k)
