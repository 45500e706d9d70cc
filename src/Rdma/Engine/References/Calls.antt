-- ===== src/Rdma/Engine/References/Calls.antt =====
-- Any sequence of calls of `RdmaEngine` of src/rocev2/engine.cpp.
use smart_nic.Rdma.Engine.References.Tables.{
  create_cq-Preserves, poll_cq-Preserves, destroy_cq-IsLinked, create_qp-IsLinked,
  create_pd-Preserves, register_mr-Preserves, removes-Preserves, destroy_qp-Preserves,
}
use smart_nic.Rdma.Engine.References.Packets.{process_parsed-Preserves}
use smart_nic.Rdma.Engine.Incoming.{new_parser}
use smart_nic.Memory.Host.{SimpleHostMemory}
use smart_nic.Rdma.Engine.References.Posts.{
  modify_qp-Preserves, post_send-Preserves, post_recv-Preserves,
}
use smart_nic.Rdma.Packet.Parser.{parse}
use smart_nic.Rdma.Engine.Clock.{advance_time}
use smart_nic.Rdma.Engine.Incoming.Dispatch.{process_incoming_packet, process_parsed}
use smart_nic.Rdma.Engine.Posting.{post_send, post_recv}
use smart_nic.Rdma.Wqe.{SendWqe, RecvWqe}
use smart_nic.Rdma.Engine.References.{
  Preserves, IsLinked, Preserves-refl, same_tables, Preserves-IsLinked,
}
use smart_nic.Rdma.QueuePair.{RdmaQpConfig, RdmaQpModifyParams, RdmaQueuePair}
use smart_nic.Rdma.Engine
use smart_nic.Base.Assoc.{empty-Holds}
use smart_nic.Rdma.Engine.{RdmaEngine, count_error, generate_outgoing_packets, RdmaEngineConfig}
use smart_nic.Rdma.BitFields.{BitFields}
use smart_nic.Rdma.MrTable.{AccessFlags}
use smart_nic.Rdma.Engine.Resources.{
  create_cq, poll_cq, destroy_cq, create_qp, create_pd, destroy_pd, register_mr, deregister_mr,
  destroy_qp, modify_qp,
}
use smart_nic.Rdma.Congestion.{Floats}
use smart_nic.Base.{false, refl, [], ◌∷◌, ℕ, List, if-cases, ◌≡◌, not, length, Bool}

-- The calls that change an engine.
pub data Call : Type 0 where
  creates_pd : Call
  destroys_pd : ℕ → Call
  registers_mr : ℕ → ℕ → ℕ → AccessFlags → Call
  deregisters_mr : ℕ → Call
  creates_cq : ℕ → Call
  destroys_cq : ℕ → Call
  polls_cq : ℕ → ℕ → Call
  creates_qp : RdmaQpConfig → Call
  destroys_qp : ℕ → Call
  modifies_qp : ℕ → RdmaQpModifyParams → Call
  posts_send : ℕ → SendWqe → Call
  posts_recv : ℕ → RecvWqe → Call
  receives : List ℕ → Call
  takes_outgoing : Call
  advances : ℕ → Call
  resets : Call

module _ {D : Type 0} (fl : Floats D) (bits : BitFields) where
  unfoldable pub step : RdmaEngine D → Call → RdmaEngine D
  step e creates_pd = (create_pd e).1
  step e (destroys_pd handle) = (destroy_pd e handle).1
  step e (registers_mr handle address size access) = (register_mr e handle address size access).1
  step e (deregisters_mr lkey) = (deregister_mr e lkey).1
  step e (creates_cq depth) = (create_cq e depth).1
  step e (destroys_cq number) = (destroy_cq e number).1
  step e (polls_cq number n) = (poll_cq e number n).1
  step e (creates_qp config) = (create_qp e config).1
  step e (destroys_qp number) = (destroy_qp e number).1
  step e (modifies_qp number params) = (modify_qp e number params).1
  step e (posts_send number wqe) = (post_send bits e number wqe).1
  step e (posts_recv number wqe) = (post_recv e number wqe).1
  step e (receives bytes) = (process_incoming_packet fl bits e bytes).1
  step e takes_outgoing = (generate_outgoing_packets e).1
  step e (advances elapsed) = advance_time fl e elapsed
  step e resets = Engine.reset e

  unfoldable pub run : RdmaEngine D → List Call → RdmaEngine D
  unfolding step
  run e [] = e
  run e (call ∷ calls) = run (step e call) calls

module _ {D : Type 0} (fl : Floats D) (bits : BitFields) where
  receives-Preserves :
      (e : RdmaEngine D) (bytes : List ℕ) → Preserves e (process_incoming_packet fl bits e bytes).1
  unfolding process_incoming_packet
  receives-Preserves e bytes =
      let P : Bool × RdmaEngine D → Type 0 = λ r. Preserves e r.1 in
      let (parsed, p) = parse bits new_parser bytes in
      if-cases P (not e.config.enabled) (false, e) _ (λ c. Preserves-refl e)
        (λ c.
          if-cases P (not parsed) (false, count_error e) (process_parsed fl bits e (length bytes) p)
            (λ c. same_tables e (count_error e) refl refl)
            (λ c. process_parsed-Preserves fl bits e (length bytes) p))

  step-IsLinked : (e : RdmaEngine D) (call : Call) → IsLinked e → IsLinked (step fl bits e call)
  unfolding step generate_outgoing_packets advance_time Engine.reset
  step-IsLinked e creates_pd v = Preserves-IsLinked e _ (create_pd-Preserves e) v
  step-IsLinked e (destroys_pd n) v = Preserves-IsLinked e _ (removes-Preserves e n).0 v
  step-IsLinked e (registers_mr handle address size access) v =
      Preserves-IsLinked e _ (register_mr-Preserves e handle address size access) v
  step-IsLinked e (deregisters_mr n) v = Preserves-IsLinked e _ (removes-Preserves e n).1 v
  step-IsLinked e (creates_cq depth) v = Preserves-IsLinked e _ (create_cq-Preserves e depth) v
  step-IsLinked e (destroys_cq n) v = destroy_cq-IsLinked e n v
  step-IsLinked e (polls_cq n k) v = Preserves-IsLinked e _ (poll_cq-Preserves e n k) v
  step-IsLinked e (creates_qp c) v = create_qp-IsLinked e c v
  step-IsLinked e (destroys_qp n) v = Preserves-IsLinked e _ (destroy_qp-Preserves e n) v
  step-IsLinked e (modifies_qp n p) v = Preserves-IsLinked e _ (modify_qp-Preserves e n p) v
  step-IsLinked e (posts_send n w) v = Preserves-IsLinked e _ (post_send-Preserves bits e n w) v
  step-IsLinked e (posts_recv n w) v = Preserves-IsLinked e _ (post_recv-Preserves e n w) v
  step-IsLinked e (receives bytes) v = Preserves-IsLinked e _ (receives-Preserves e bytes) v
  step-IsLinked e takes_outgoing v = record { served = v.served; numbered = v.numbered }
  step-IsLinked e (advances elapsed) v =
      if-cases IsLinked (not e.config.enabled) _ _ (λ c. v)
        (λ c. record { served = v.served; numbered = v.numbered })
  step-IsLinked e resets v = record {
    served = empty-Holds _;
    numbered = λ key q found. empty-Holds (λ (r : RdmaQueuePair). r.qp_number ≡ key) key q found;
  }

  run-IsLinked :
      (e : RdmaEngine D) (calls : List Call) → IsLinked e → IsLinked (run fl bits e calls)
  unfolding run
  run-IsLinked e [] v = v
  run-IsLinked e (call ∷ calls) v =
      run-IsLinked (step fl bits e call) calls (step-IsLinked e call v)

-- After any calls on a new engine, the send and the receive completion queue of every queue pair exist, and a queue
-- pair stands in the table under its own number.
pub run-create-IsLinked :
    {D : Type 0} (fl : Floats D) (bits : BitFields) (c : RdmaEngineConfig D)
    (memory : SimpleHostMemory) (calls : List Call)
    → IsLinked (run fl bits (Engine.create c memory) calls)
unfolding Engine.create
run-create-IsLinked {D} fl bits c memory calls =
    run-IsLinked fl bits (Engine.create c memory) calls (record {
      served = empty-Holds _;
      numbered = λ key q found. empty-Holds (λ (r : RdmaQueuePair). r.qp_number ≡ key) key q found;
    })
