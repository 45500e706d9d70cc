-- ===== src/Rdma/Engine/Completion.antt =====
-- From `post_send` to the completion queue in src/rocev2/engine.cpp: what an acknowledgement of everything that was
-- posted delivers.
use smart_nic.Rdma.Engine.Posting.Tracking.{Tracks}
use smart_nic.Rdma.Engine.References.Processors.{Keeps}
use smart_nic.Rdma.Engine.Posting.{post_send}
use smart_nic.Rdma.QueuePair.{RdmaQueuePair}
use smart_nic.Rdma.Reliability.Cumulative.{span, Message, HasPackets}
use smart_nic.Rdma.Engine.{RdmaEngine}
use smart_nic.Rdma.BitFields.{BitFields}
use smart_nic.Base.{true, [], ◌∷◌, ℕ, List, Bool, ◌&&◌, map, ◌≡◌, length, ◌+◌, ◌++◌, ◌≢◌}
use smart_nic.Rdma.Wqe.{rdma_read, WqeStatus, success, SendWqe, RdmaCqe}

module _ {D : Type 0} where
  -- Work requests that are posted one after the other, and whether each was accepted.
  unfoldable pub post_all : BitFields → RdmaEngine D → ℕ → List SendWqe → Bool × RdmaEngine D
  post_all bits e key [] = (true, e)
  post_all bits e key (wqe ∷ wqes) =
      let (accepted, e') = post_send bits e key wqe in
      let (all, e'') = post_all bits e' key wqes in (accepted && all, e'')

  record AllPosted (e : RdmaEngine D) (key base : ℕ) (q : RdmaQueuePair) (ms : List Message)
      (wqes : List SendWqe) (e' : RdmaEngine D) : Type 0 where
    more : List Message
    q' : RdmaQueuePair
    filled : HasPackets more
    requests : map (λ (m : Message). m.wr_id) more ≡ map (λ (w : SendWqe). w.wr_id) wqes
    kept : Keeps q q'
    tracked : Tracks e' key base q' (ms ++ more)
    same_cqs : e'.cqs ≡ e.cqs
    queued : length e'.outgoing_packets ≡ length e.outgoing_packets + span more

-- The requests whose completion an ACK brings: `signaled` asks for one, and a READ completes with its responses.
abbrev pub AreAcked : List SendWqe → Type 0
AreAcked [] = Unit
AreAcked (w ∷ ws) = (w.signaled ≡ true) × (w.opcode ≢ rdma_read) × AreAcked ws

-- What a completion says of its request, apart from the operation and the bytes.
pub record Report : Type 0 where
  pub wr_id : ℕ
  pub status : WqeStatus
  pub qp_number : ℕ
  pub is_send : Bool

unfoldable pub report_of : RdmaCqe → Report
report_of c = record {
  wr_id = c.wr_id;
  status = c.status;
  qp_number = c.qp_number;
  is_send = c.is_send;
}

abbrev pub succeeded_on : ℕ → SendWqe → Report
succeeded_on key w = record { wr_id = w.wr_id; status = success; qp_number = key; is_send = true }
