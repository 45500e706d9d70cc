-- ===== src/Rdma/QueuePair/Run.antt =====
-- A queue pair under any sequence of calls: its queues stay within their depths and its sequence
-- numbers within 24 bits.
use smart_nic.Base.{ℕ, List, [], ◌∷◌, ◌≡◌, length, ◌≤◌, ◌<◌, arith, true, length-append, false}
use smart_nic.Rdma.Wqe.{WqeOpcode, SendWqe, RecvWqe, AethSyndrome, ack}
use smart_nic.Rdma.QueuePair.{RdmaQueuePair, RdmaQpConfig, RdmaQpModifyParams, reset, create}
use smart_nic.Rdma.QueuePair.Work.{
  modify, post_send, post_recv, get_next_send, consume_recv, record_packet_sent,
  record_packet_received,
}
use smart_nic.Rdma.QueuePair.Reliable.{
  handle_ack, add_pending_operation, check_timeouts, advance_time, next_send_psn, advance_recv_psn,
}
use smart_nic.Rdma.Psn.{psn_count, mask_psn, advance_psn-lt}

-- The public calls that change the state.
pub data Call : Type 0 where
  modifies : RdmaQpModifyParams → Call
  posts_send : SendWqe → Call
  posts_recv : RecvWqe → Call
  takes_send consumes_recv : Call
  packet_sent packet_received : ℕ → Call
  acks : ℕ → AethSyndrome → Call
  adds_pending : SendWqe → ℕ → Call
  checks_timeouts time_passes : ℕ → Call
  sends_psn receives_psn resets : Call

pub step : RdmaQueuePair → Call → RdmaQueuePair
step q (modifies p) = (modify q p).1
step q (posts_send w) = (post_send q w).1
step q (posts_recv w) = (post_recv q w).1
step q takes_send = (get_next_send q).1
step q consumes_recv = (consume_recv q).1
step q (packet_sent n) = record_packet_sent q n
step q (packet_received n) = record_packet_received q n
step q (acks psn syndrome) = handle_ack q psn syndrome
step q (adds_pending w n) = add_pending_operation q w n
step q (checks_timeouts now) = (check_timeouts q now).1
step q (time_passes n) = advance_time q n
step q sends_psn = (next_send_psn q).1
step q receives_psn = advance_recv_psn q
step q resets = reset q

unfoldable pub run : RdmaQueuePair → List Call → RdmaQueuePair
unfolding step
run q [] = q
run q (c ∷ cs) = run (step q c) cs

pub record IsBounded (c : RdmaQpConfig) (q : RdmaQueuePair) : Type 0 where
  pub same_config : q.config ≡ c
  pub send_room : length q.send_queue ≤ c.send_queue_depth
  pub recv_room : length q.recv_queue ≤ c.recv_queue_depth
  pub sq_psn_in : q.sq_psn < psn_count
  pub rq_psn_in : q.rq_psn < psn_count

module _ (c : RdmaQpConfig) (q : RdmaQueuePair) (v : IsBounded c q) where
  modify-IsBounded : (p : RdmaQpModifyParams) → IsBounded c (modify q p).1
  unfolding modify mask_psn
  modify-IsBounded p = ground arith

  post_send-IsBounded : (w : SendWqe) → IsBounded c (post_send q w).1
  unfolding post_send
  post_send-IsBounded w = ground (arith, length-append q.send_queue (w ∷ []), v.same_config)

  post_recv-IsBounded : (w : RecvWqe) → IsBounded c (post_recv q w).1
  unfolding post_recv
  post_recv-IsBounded w = ground (arith, length-append q.recv_queue (w ∷ []), v.same_config)

  get_next_send-IsBounded : IsBounded c (get_next_send q).1
  unfolding get_next_send
  get_next_send-IsBounded = ground arith

  consume_recv-IsBounded : IsBounded c (consume_recv q).1
  unfolding consume_recv
  consume_recv-IsBounded = ground arith

  handle_ack-IsBounded : (psn : ℕ) (s : AethSyndrome) → IsBounded c (handle_ack q psn s)
  unfolding handle_ack
  handle_ack-IsBounded psn ack = ground arith
  handle_ack-IsBounded psn _ = ground arith

  rest-IsBounded :
      (w : SendWqe) (n : ℕ)
      → IsBounded c (add_pending_operation q w n)
        × IsBounded c (check_timeouts q n).1
        × IsBounded c (advance_time q n)
        × IsBounded c (record_packet_sent q n)
        × IsBounded c (record_packet_received q n)
  unfolding add_pending_operation check_timeouts advance_time record_packet_sent
      record_packet_received
  rest-IsBounded w n = (ground arith, ground arith, ground arith, ground arith, ground arith)

  psn-IsBounded : IsBounded c (next_send_psn q).1 × IsBounded c (advance_recv_psn q)
  unfolding next_send_psn advance_recv_psn
  psn-IsBounded =
      (ground (arith, advance_psn-lt q.sq_psn 1), ground (arith, advance_psn-lt q.rq_psn 1))

  reset-IsBounded : IsBounded c (reset q)
  unfolding reset
  reset-IsBounded = ground arith

abbrev any_wqe : SendWqe
any_wqe = record {
  wr_id = 0;
  opcode = WqeOpcode.send;
  sgl = [];
  total_length = 0;
  signaled = true;
  solicited = false;
  fence = false;
  inline_data = false;
  immediate_data = 0;
  remote_address = 0;
  rkey = 0;
  local_lkey = 0;
}

pub step-IsBounded :
    (c : RdmaQpConfig) (q : RdmaQueuePair) (k : Call) → IsBounded c q → IsBounded c (step q k)
unfolding step
step-IsBounded c q (modifies p) v = modify-IsBounded c q v p
step-IsBounded c q (posts_send w) v = post_send-IsBounded c q v w
step-IsBounded c q (posts_recv w) v = post_recv-IsBounded c q v w
step-IsBounded c q takes_send v = get_next_send-IsBounded c q v
step-IsBounded c q consumes_recv v = consume_recv-IsBounded c q v
step-IsBounded c q (packet_sent n) v = (rest-IsBounded c q v any_wqe n).3
step-IsBounded c q (packet_received n) v = (rest-IsBounded c q v any_wqe n).4
step-IsBounded c q (acks psn s) v = handle_ack-IsBounded c q v psn s
step-IsBounded c q (adds_pending w n) v = (rest-IsBounded c q v w n).0
step-IsBounded c q (checks_timeouts now) v = (rest-IsBounded c q v any_wqe now).1
step-IsBounded c q (time_passes n) v = (rest-IsBounded c q v any_wqe n).2
step-IsBounded c q sends_psn v = (psn-IsBounded c q v).0
step-IsBounded c q receives_psn v = (psn-IsBounded c q v).1
step-IsBounded c q resets v = reset-IsBounded c q v

run-IsBounded :
    (c : RdmaQpConfig) (q : RdmaQueuePair) (ks : List Call) → IsBounded c q → IsBounded c (run q ks)
unfolding run
run-IsBounded c q [] v = v
run-IsBounded c q (k ∷ ks) v = run-IsBounded c (step q k) ks (step-IsBounded c q k v)

-- After any sequence of public calls on a new queue pair, its send and receive queues hold at most
-- the entries that its configuration allows, both packet sequence numbers are below 2^24, and the
-- configuration is the one it was created with.
pub run-create-IsBounded :
    (n : ℕ) (c : RdmaQpConfig) (ks : List Call) → IsBounded c (run (create n c) ks)
unfolding create
run-create-IsBounded n c ks = run-IsBounded c (create n c) ks (ground arith)
