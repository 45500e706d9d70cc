-- ===== src/Rdma/QueuePair/Reliable.antt =====
-- The reliability half of `RdmaQueuePair`: acknowledgements, timeouts, sequence numbers, MTU.
pub mod Acks
pub mod Timeouts
use smart_nic.Base.{
  ℕ, Bool, sub32, List, add64, ◌%◌, ◌*◌, leb, ◌-◌, if◌then◌else◌, ◌∷◌, add32, ◌^◌, sub64, false,
  length, ◌==◌, [], ◌++◌, min, ltb, true,
}
use smart_nic.Rdma.Psn.{psn_count, advance_psn, psn_in_window}
use smart_nic.Rdma.Wqe.{QpState, error, SendWqe, AethSyndrome, ack, rnr_nak, psn_seq_error}
use smart_nic.Rdma.QueuePair.{RdmaQueuePair, PendingOperation, RdmaQpConfig, RdmaQpStats}

-- The test of the loop in `handle_ack`.
unfoldable pub is_acked : ℕ → ℕ → PendingOperation → Bool
is_acked last_acked acked op =
    psn_in_window (advance_psn op.psn (sub32 op.num_packets 1)) last_acked
      (add32 (sub32 acked last_acked) 1)

-- The loop: the operations that stay, and how many were completed on top of `completions`.
retire : ℕ → ℕ → List PendingOperation → ℕ → List PendingOperation × ℕ
unfolding is_acked
retire last_acked acked [] completions = ([], completions)
retire last_acked acked (op ∷ ops) completions =
    let rest = retire last_acked acked ops (add64 completions 1) in
    if is_acked last_acked acked op then rest else (op ∷ ops, completions)

unfoldable pub handle_ack : RdmaQueuePair → ℕ → AethSyndrome → RdmaQueuePair
unfolding retire
handle_ack q acked ack =
    let (ops, n) = retire q.last_acked_psn acked q.pending_operations (q.stats.send_completions) in
    record q {
      pending_operations = ops;
      last_acked_psn = acked;
      stats = record (q.stats) { send_completions = n };
    }
handle_ack q acked rnr_nak = record q {
  stats = record (q.stats) { rnr_naks_received = add64 (q.stats.rnr_naks_received) 1 };
}
handle_ack q acked psn_seq_error = record q {
  stats = record (q.stats) {
    sequence_errors = add64 (q.stats.sequence_errors) 1;
    retransmits = add64 (q.stats.retransmits) 1;
  };
}
handle_ack q acked _ = record q {
  state = error;
  stats = record (q.stats) { remote_errors = add64 (q.stats.remote_errors) 1 };
}

unfoldable pub add_pending_operation : RdmaQueuePair → SendWqe → ℕ → RdmaQueuePair
add_pending_operation q wqe num_packets =
    let op : PendingOperation = record {
      wqe = wqe;
      psn = q.sq_psn;
      num_packets = num_packets;
      timestamp_us = q.current_time_us;
      retry_count = q.config.retry_count % 2 ^ 8;
    } in
    record q { pending_operations = q.pending_operations ++ (op ∷ []) }

-- `4 << min(timeout, 31)`
unfoldable pub timeout_us : RdmaQpConfig → ℕ
timeout_us c = 4 * 2 ^ min c.timeout 31

pub record Scan : Type 0 where
  pub operations : List PendingOperation
  pub retransmits : List SendWqe
  pub exhausted : Bool

unfoldable pub expired : ℕ → ℕ → PendingOperation → Bool
expired timeout now op = leb timeout (sub64 now op.timestamp_us)

resent : ℕ → PendingOperation → Scan → Scan
resent now op rest = record {
  operations = record op { retry_count = op.retry_count - 1; timestamp_us = now } ∷ rest.operations;
  retransmits = op.wqe ∷ rest.retransmits;
  exhausted = rest.exhausted;
}

kept : PendingOperation → Scan → Scan
kept op rest = record rest { operations = op ∷ rest.operations }

-- The loop of `check_timeouts`: what it does to the operations, what it collects, and whether it
-- broke off at an operation without retries.
scan_timeouts : ℕ → ℕ → List PendingOperation → Scan
unfolding expired resent kept
scan_timeouts timeout now [] = record { operations = []; retransmits = []; exhausted = false }
scan_timeouts timeout now (op ∷ ops) =
    let rest = scan_timeouts timeout now ops in
    if expired timeout now op
    then if ltb 0 op.retry_count
      then resent now op rest
      else record { operations = op ∷ ops; retransmits = []; exhausted = true }
    else kept op rest

-- The counters go up by one for each retransmission and for the exhausted operation.
unfoldable pub check_timeouts : RdmaQueuePair → ℕ → List SendWqe × RdmaQueuePair
unfolding scan_timeouts timeout_us
check_timeouts q now =
    let s = scan_timeouts (timeout_us q.config) now q.pending_operations in
    (
      s.retransmits,
      record q {
        pending_operations = s.operations;
        state = if s.exhausted then error else q.state;
        stats = record (q.stats) {
          retransmits = add64 (q.stats.retransmits) (length s.retransmits);
          local_errors =
              if s.exhausted then add64 (q.stats.local_errors) 1 else q.stats.local_errors;
        };
      },
    )

unfoldable pub advance_time : RdmaQueuePair → ℕ → RdmaQueuePair
advance_time q elapsed = record q { current_time_us = add64 q.current_time_us elapsed }

unfoldable pub next_send_psn : RdmaQueuePair → ℕ × RdmaQueuePair
next_send_psn q = (q.sq_psn, record q { sq_psn = advance_psn q.sq_psn 1 })

unfoldable pub last_sent_psn : RdmaQueuePair → ℕ
last_sent_psn q = if q.sq_psn == 0 then psn_count - 1 else q.sq_psn - 1

unfoldable pub advance_recv_psn : RdmaQueuePair → RdmaQueuePair
advance_recv_psn q = record q { rq_psn = advance_psn q.rq_psn 1 }

unfoldable pub mtu_bytes : RdmaQueuePair → ℕ
mtu_bytes q =
    if q.path_mtu == 1
    then 256
    else if q.path_mtu == 2
    then 512
    else if q.path_mtu == 3
    then 1024
    else if q.path_mtu == 4
    then 2048
    else if q.path_mtu == 5
    then 4096
    else 1024
