-- ===== src/Rdma/Reliability/Nak.antt =====
-- `ReliabilityManager::process_nak` of src/rocev2/congestion.cpp, a function for each case of its switch.
use smart_nic.Rdma.Psn.{psn_in_window, mask_psn}
use smart_nic.Base.{
  true, false, none, some, [], List, ℕ, add64, ◌∷◌, Bool, add32, ◌==◌, if◌then◌else◌, sub32, ltb,
  ◌||◌, not,
}
use smart_nic.Rdma.Wqe.{
  ack, rnr_nak, psn_seq_error, invalid_request, nak_remote_access, nak_remote_op,
  retry_exceeded_error, rnr_retry_exceeded_error, remote_invalid_request_error, remote_access_error,
  remote_operation_error, AethSyndrome, WqeStatus,
}
use smart_nic.Rdma.Reliability.{
  no_result, PendingAck, ReliabilityStats, ReliabilityConfig, AckResult, ReliabilityManager,
}
use smart_nic.Base.Assoc.{lookup, insert}

-- What a case leaves: the operations, the result and the counters.
pub record NakScan : Type 0 where
  pub operations : List PendingAck
  pub result : AckResult
  pub stats : ReliabilityStats

abbrev pub give_up : PendingAck → PendingAck
give_up op = record op { waiting_for_ack = false }

abbrev pub count_exceeded : ReliabilityStats → ReliabilityStats
count_exceeded stats = record stats { retry_exceeded = add64 stats.retry_exceeded 1 }

abbrev pub keep_op : PendingAck → NakScan → NakScan
keep_op op rest = record rest { operations = op ∷ rest.operations }

-- The test of the first case: whether the operation has a packet with the number.
unfoldable pub spans : ℕ → PendingAck → Bool
unfolding psn_in_window mask_psn
spans nak_psn op =
    psn_in_window nak_psn op.start_psn (mask_psn (add32 (sub32 op.end_psn op.start_psn) 1))

unfoldable pub nak_sequence : ReliabilityConfig → ℕ → List PendingAck → NakScan → NakScan
unfolding spans
nak_sequence c nak_psn [] scan = record scan { operations = [] }
nak_sequence c nak_psn (op ∷ ops) scan =
    let tried = record op { retry_count = add32 op.retry_count 1; send_time_us = 0 } in
    let exceeded = ltb c.max_retries tried.retry_count in
    let hit = spans nak_psn op in
    let scan' =
      if not hit
      then scan
      else if exceeded
      then record scan {
        result = record (scan.result) { error_status = some retry_exceeded_error };
        stats = count_exceeded scan.stats;
      }
      else record scan {
        stats = record (scan.stats) { retransmissions = add64 (scan.stats.retransmissions) 1 };
      } in
    keep_op (if not hit then op else if exceeded then give_up tried else tried)
      (nak_sequence c nak_psn ops scan')

unfoldable pub at_an_end : ℕ → PendingAck → Bool
at_an_end nak_psn op = op.start_psn == nak_psn || op.end_psn == nak_psn

unfoldable pub nak_receiver : ReliabilityConfig → ℕ → List PendingAck → NakScan → NakScan
unfolding at_an_end
nak_receiver c nak_psn [] scan = record scan { operations = [] }
nak_receiver c nak_psn (op ∷ ops) scan =
    let tried = record op { retry_count = add32 op.retry_count 1 } in
    let exceeded = ltb c.rnr_retry_count tried.retry_count in
    let hit = at_an_end nak_psn op in
    let scan' =
      if not hit
      then scan
      else if exceeded
      then record scan {
        result = record (scan.result) { error_status = some rnr_retry_exceeded_error };
        stats = count_exceeded scan.stats;
      }
      else record scan { result = record (scan.result) { needs_retransmit = true } } in
    keep_op (if not hit then op else if exceeded then give_up tried else tried)
      (nak_receiver c nak_psn ops scan')

-- The loop of the three fatal cases.
unfoldable pub give_up_from : ℕ → List PendingAck → List PendingAck
give_up_from nak_psn [] = []
give_up_from nak_psn (op ∷ ops) =
    (if op.start_psn == nak_psn then give_up op else op) ∷ give_up_from nak_psn ops

unfoldable pub nak_fatal : WqeStatus → ℕ → List PendingAck → NakScan → NakScan
unfolding give_up_from
nak_fatal status nak_psn ops scan = record scan {
  operations = give_up_from nak_psn ops;
  result = record (scan.result) { error_status = some status };
}

-- The switch.
unfoldable pub nak_cases :
    ReliabilityConfig → ℕ → AethSyndrome → List PendingAck → ReliabilityStats → NakScan
unfolding nak_sequence nak_receiver nak_fatal
nak_cases c nak_psn psn_seq_error ops stats = nak_sequence c nak_psn ops (record {
  operations = ops;
  result = record no_result { needs_retransmit = true };
  stats = stats;
})
nak_cases c nak_psn rnr_nak ops stats = nak_receiver c nak_psn ops (record {
  operations = ops;
  result = no_result;
  stats = record stats { rnr_retries = add64 stats.rnr_retries 1 };
})
nak_cases c nak_psn invalid_request ops stats =
    nak_fatal remote_invalid_request_error nak_psn ops
      (record { operations = ops; result = no_result; stats = stats })
nak_cases c nak_psn nak_remote_access ops stats =
    nak_fatal remote_access_error nak_psn ops
      (record { operations = ops; result = no_result; stats = stats })
nak_cases c nak_psn nak_remote_op ops stats =
    nak_fatal remote_operation_error nak_psn ops
      (record { operations = ops; result = no_result; stats = stats })
nak_cases c nak_psn ack ops stats = record { operations = ops; result = no_result; stats = stats }
nak_cases c nak_psn (AethSyndrome.unlisted_syndrome code) ops stats = record {
  operations = ops;
  result = no_result;
  stats = stats;
}

unfoldable pub process_nak :
    ReliabilityManager → ℕ → ℕ → AethSyndrome → AckResult × ReliabilityManager
unfolding nak_cases lookup insert
process_nak m qp_number nak_psn syndrome =
    let counted = record (m.stats) { naks_received = add64 (m.stats.naks_received) 1 } in
    elim (lookup qp_number m.pending_ops) [
      | none ↦ (no_result, record m { stats = counted })
      | some ops ↦
          let scan = nak_cases m.config nak_psn syndrome ops counted in
          (
            record (scan.result) { success = true },
            record m {
              stats = scan.stats;
              pending_ops = insert qp_number scan.operations m.pending_ops;
            },
          )
    ]
