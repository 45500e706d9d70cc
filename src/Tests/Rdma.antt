-- ===== src/Tests/Rdma.antt =====
-- A queue pair with two pending operations, the tables of keys and handles, and a completion queue.
use smart_nic.Base.{
  ℕ, [], ◌∷◌, some, ◌≡◌, List, ◌+◌, false, arith, true, ◌^◌, none, ltb, ◌++◌, length, ◌↔◌, ◌-◌,
  refl, add64,
}
use smart_nic.Base.Assoc.{lookup}
use smart_nic.Rdma.QueuePair
use smart_nic.Rdma.PdTable
use smart_nic.Rdma.MrTable
use smart_nic.Rdma.Psn.{psn_in_window, advance_psn, in_window-advance}
use smart_nic.Rdma.Wqe
use smart_nic.Rdma.Wqe.{SendWqe, RdmaCqe}
use smart_nic.Rdma.QueuePair.{
  RdmaQueuePair, RdmaQpConfig, RdmaQpModifyParams, PendingOperation, create, is_valid_transition,
}
use smart_nic.Rdma.QueuePair.Work.{modify, modify_to, apply_params}
use smart_nic.Rdma.QueuePair.Work.States.{after, Visited, rts-Visited}
use smart_nic.Rdma.QueuePair.Reliable.{handle_ack, check_timeouts}
use smart_nic.Rdma.QueuePair.Reliable.Acks.{AllWithin, FrontBeyond, handle_ack-in_order}
use smart_nic.Rdma.QueuePair.Reliable.Timeouts.{check_timeouts-budget, budget}
use smart_nic.Rdma.QueuePair.Run.{
  run, IsBounded, run-create-IsBounded, modifies, posts_send, sends_psn,
}
use smart_nic.Rdma.CompletionQueue.{RdmaCompletionQueue, no_stats}
use smart_nic.Rdma.PdTable.{
  PdTable, IsFresh, allocate, deallocate, is_valid, allocate-IsFresh, deallocate_only,
}
use smart_nic.Rdma.MrTable.{
  MemoryRegion, MemoryRegionTable, AccessFlags, register_mr, deregister_mr, validate_rkey,
  in_bounds, get_by_lkey, get_by_rkey,
}
use smart_nic.Rdma.MrTable.Access.{Grants, validate_rkey_iff, in_bounds-wraps}
use smart_nic.Rdma.MrTable.Inv.{Agree, register_mr-Agree, deregister_mr-Agree}

abbrev wqe : SendWqe
wqe = record {
  wr_id = 1;
  opcode = Wqe.WqeOpcode.send;
  sgl = [];
  total_length = 1024;
  signaled = true;
  solicited = false;
  fence = false;
  inline_data = false;
  immediate_data = 0;
  remote_address = 0;
  rkey = 0;
  local_lkey = 0;
}

abbrev config : RdmaQpConfig
config = record {
  type = Wqe.QpType.rc;
  send_queue_depth = 4;
  recv_queue_depth = 4;
  max_send_sge = 1;
  max_recv_sge = 1;
  pd_handle = 1;
  send_cq_number = 0;
  recv_cq_number = 0;
  max_inline_data = 0;
  retry_count = 7;
  rnr_retry_count = 7;
  timeout = 14;
  min_rnr_timer = 12;
}

abbrev pending : ℕ → PendingOperation
pending psn = record { wqe = wqe; psn = psn; num_packets = 2; timestamp_us = 0; retry_count = 3 }

-- Ready to send, with operations at 10 and 12 unacknowledged.
abbrev pair : RdmaQueuePair
pair = record {
  qp_number = 5;
  config = config;
  state = Wqe.QpState.rts;
  dest_qp_number = 6;
  dest_ip = 10 ∷ 0 ∷ 0 ∷ 1 ∷ [];
  dest_port = 4791;
  path_mtu = 3;
  sq_psn = 14;
  rq_psn = 0;
  last_acked_psn = 10;
  send_queue = [];
  recv_queue = [];
  pending_operations = pending 10 ∷ pending 12 ∷ [];
  current_time_us = 0;
  stats = QueuePair.no_stats;
}

abbrev to : Wqe.QpState → RdmaQpModifyParams
to s = record {
  target_state = some s;
  dest_qp_number = none;
  dest_ip = none;
  dest_port = none;
  sq_psn = none;
  rq_psn = none;
  path_mtu = none;
}

in_window-advance_example : psn_in_window (advance_psn 0xfffffe 5) 0xfffffe 8 ≡ ltb 5 8
in_window-advance_example = in_window-advance 0xfffffe 5 8 (omega arith) (omega arith)

abbrev brought_up : List RdmaQpModifyParams
brought_up = to Wqe.QpState.rts ∷ to Wqe.QpState.rtr ∷ to Wqe.QpState.init ∷ []

rts-Visited_example :
    Visited (create 5 config) brought_up Wqe.QpState.init
    × Visited (create 5 config) brought_up Wqe.QpState.rtr
unfolding create after modify modify_to apply_params is_valid_transition
rts-Visited_example = rts-Visited (create 5 config) brought_up refl refl

run-create-IsBounded_example : IsBounded config (
    run (create 5 config) (
      modifies (to Wqe.QpState.init)
      ∷ modifies (to Wqe.QpState.rtr)
      ∷ posts_send wqe
      ∷ sends_psn
      ∷ []))
run-create-IsBounded_example = run-create-IsBounded 5 config (
    modifies (to Wqe.QpState.init)
    ∷ modifies (to Wqe.QpState.rtr)
    ∷ posts_send wqe
    ∷ sends_psn
    ∷ [])

handle_ack-in_order_example :
    let q' = handle_ack pair 11 Wqe.AethSyndrome.ack in
    (front : List PendingOperation) × (pair.pending_operations ≡ front ++ q'.pending_operations)
    × AllWithin 10 1 front
    × FrontBeyond 10 1 q'.pending_operations
    × (q'.stats.send_completions ≡ add64 0 (length front))
    × (q'.last_acked_psn ≡ 11)
handle_ack-in_order_example = handle_ack-in_order pair 11 (omega arith) (omega arith) (omega arith)

check_timeouts-budget_example :
    budget (check_timeouts pair 1000000).1.pending_operations
      + length (check_timeouts pair 1000000).0
    ≡ 6
check_timeouts-budget_example = (check_timeouts-budget pair 1000000).0

abbrev cqe : ℕ → RdmaCqe
cqe n = record {
  wr_id = n;
  status = Wqe.WqeStatus.success;
  opcode = Wqe.WqeOpcode.send;
  qp_number = 5;
  bytes_completed = 0;
  immediate_data = 0;
  has_immediate = false;
  is_send = true;
}

abbrev completions : RdmaCompletionQueue
completions = record {
  cq_number = 1;
  depth = 8;
  cqes = cqe 1 ∷ cqe 2 ∷ cqe 3 ∷ [];
  armed = true;
  has_new_completions = true;
  stats = no_stats;
}

-- Handles 1 and 2 are in use.
abbrev domains : PdTable
domains = record {
  max_pds = 4;
  pds = (1, 1) ∷ (2, 2) ∷ [];
  next_handle = 3;
  stats = PdTable.no_stats;
}

domains-IsFresh : IsFresh domains
unfolding lookup
domains-IsFresh = record { above = λ h le. ground arith; room = omega arith }

abbrev access : AccessFlags
access = record {
  local_read = true;
  local_write = true;
  remote_read = true;
  remote_write = false;
  zero_based = false;
}

abbrev region : MemoryRegion
region = record {
  lkey = 1;
  rkey = 2;
  virtual_address = 0x1000;
  size = 0x100;
  pd_handle = 1;
  access = access;
  is_valid = true;
}

abbrev regions : MemoryRegionTable
regions = record {
  max_mrs = 4;
  mrs_by_lkey = (1, region) ∷ [];
  mrs_by_rkey = (2, region) ∷ [];
  next_key = 3;
  stats = MrTable.no_stats;
}

regions-Agree : Agree regions
unfolding lookup
regions-Agree = record {
  fresh = λ k le. ground arith;
  by_lkey = λ k mr e. ground arith;
  by_rkey = λ k mr e. ground arith;
}

validate_rkey_iff_example :
    ((validate_rkey regions 2 1 0x1010 16 false).0 ≡ true)
    ↔ ((mr : MemoryRegion) × (get_by_rkey regions 2 ≡ some mr) × Grants 1 0x1010 16 false mr)
validate_rkey_iff_example = validate_rkey_iff regions 2 1 0x1010 16 false (omega arith)

in_bounds-wraps_example : in_bounds region 0x1001 (2 ^ 64 - 1) ≡ true
in_bounds-wraps_example = in_bounds-wraps region 1 (omega arith) (omega arith) (omega arith)

register_mr-Agree_example : Agree (register_mr regions 1 0x4000 64 access).1
register_mr-Agree_example =
    (register_mr-Agree regions 1 0x4000 64 access regions-Agree (omega arith)).0

deregister_mr-Agree_example : get_by_rkey (deregister_mr regions 1).1 2 ≡ none
unfolding get_by_lkey lookup
deregister_mr-Agree_example = (deregister_mr-Agree regions region regions-Agree refl).3
