-- ===== src/Rdma/QueuePair/Work.antt =====
-- `RdmaQueuePair::modify`, the posting and taking of work, and the packet counters.
pub mod States
use smart_nic.Base.{
  ℕ, Bool, Option, add64, true, if◌then◌else◌, List, some, false, not, ◌++◌, none, ltb, ◌∷◌, length,
  [],
}
use smart_nic.Rdma.Psn.{mask_psn}
use smart_nic.Rdma.Wqe.{QpState, init, rtr, rts, SendWqe, RecvWqe}
use smart_nic.Rdma.QueuePair.{RdmaQueuePair, RdmaQpModifyParams, is_valid_transition}

abbrev value_or {ℓ} : {A : Type ℓ} → Option A → A → A
value_or none d = d
value_or (some a) d = a

abbrev masked_or : Option ℕ → ℕ → ℕ
masked_or none d = d
masked_or (some a) d = mask_psn a

unfoldable pub local_error : RdmaQueuePair → RdmaQueuePair
local_error q = record q {
  stats = record (q.stats) { local_errors = add64 (q.stats.local_errors) 1 };
}

unfoldable pub apply_params : RdmaQueuePair → RdmaQpModifyParams → RdmaQueuePair
unfolding mask_psn
apply_params q p = record q {
  dest_qp_number = value_or p.dest_qp_number q.dest_qp_number;
  dest_ip = value_or p.dest_ip q.dest_ip;
  dest_port = value_or p.dest_port q.dest_port;
  sq_psn = masked_or p.sq_psn q.sq_psn;
  rq_psn = masked_or p.rq_psn q.rq_psn;
  path_mtu = value_or p.path_mtu q.path_mtu;
}

unfoldable pub modify_to :
    RdmaQueuePair → RdmaQpModifyParams → Option QpState → Bool × RdmaQueuePair
unfolding local_error apply_params is_valid_transition
modify_to q p none = (true, apply_params q p)
modify_to q p (some target) =
    if is_valid_transition q.state target
    then (true, apply_params (record q { state = target }) p)
    else (false, local_error q)

unfoldable pub modify : RdmaQueuePair → RdmaQpModifyParams → Bool × RdmaQueuePair
unfolding modify_to
modify q p = modify_to q p p.target_state

-- The three states in which work may be posted.
unfoldable pub accepts_work : QpState → Bool
accepts_work init = true
accepts_work rtr = true
accepts_work rts = true
accepts_work _ = false

unfoldable pub can_post_send : RdmaQueuePair → Bool
unfolding accepts_work
can_post_send q =
    if not (accepts_work q.state)
    then false
    else ltb (length q.send_queue) (q.config.send_queue_depth)

unfoldable pub can_post_recv : RdmaQueuePair → Bool
unfolding accepts_work
can_post_recv q =
    if not (accepts_work q.state)
    then false
    else ltb (length q.recv_queue) (q.config.recv_queue_depth)

unfoldable pub can_send : RdmaQueuePair → Bool
can_send q = elim q.state [ rts ↦ true | _ ↦ false ]

unfoldable pub can_receive : RdmaQueuePair → Bool
can_receive q = elim q.state [ rtr ↦ true | rts ↦ true | _ ↦ false ]

unfoldable pub post_send : RdmaQueuePair → SendWqe → Bool × RdmaQueuePair
unfolding can_post_send local_error
post_send q wqe =
    if can_post_send q
    then (
      true,
      record q {
        send_queue = q.send_queue ++ (wqe ∷ []);
        stats = record (q.stats) { send_wqes_posted = add64 (q.stats.send_wqes_posted) 1 };
      },
    )
    else (false, local_error q)

unfoldable pub post_recv : RdmaQueuePair → RecvWqe → Bool × RdmaQueuePair
unfolding can_post_recv local_error
post_recv q wqe =
    if can_post_recv q
    then (
      true,
      record q {
        recv_queue = q.recv_queue ++ (wqe ∷ []);
        stats = record (q.stats) { recv_wqes_posted = add64 (q.stats.recv_wqes_posted) 1 };
      },
    )
    else (false, local_error q)

take_send : RdmaQueuePair → List SendWqe → Option SendWqe × RdmaQueuePair
take_send q [] = (none, q)
take_send q (w ∷ ws) = (some w, record q { send_queue = ws })

unfoldable pub get_next_send : RdmaQueuePair → Option SendWqe × RdmaQueuePair
unfolding take_send can_send
get_next_send q = if can_send q then take_send q q.send_queue else (none, q)

take_recv : RdmaQueuePair → List RecvWqe → Option RecvWqe × RdmaQueuePair
take_recv q [] = (none, q)
take_recv q (w ∷ ws) = (some w, record q { recv_queue = ws })

unfoldable pub consume_recv : RdmaQueuePair → Option RecvWqe × RdmaQueuePair
unfolding take_recv can_receive
consume_recv q = if can_receive q then take_recv q q.recv_queue else (none, q)

unfoldable pub record_packet_sent : RdmaQueuePair → ℕ → RdmaQueuePair
record_packet_sent q bytes = record q {
  stats = record (q.stats) {
    packets_sent = add64 (q.stats.packets_sent) 1;
    bytes_sent = add64 (q.stats.bytes_sent) bytes;
  };
}

unfoldable pub record_packet_received : RdmaQueuePair → ℕ → RdmaQueuePair
record_packet_received q bytes = record q {
  stats = record (q.stats) {
    packets_received = add64 (q.stats.packets_received) 1;
    bytes_received = add64 (q.stats.bytes_received) bytes;
  };
}
