-- ===== src/Rdma/Engine/Resources.antt =====
-- The resources of `RdmaEngine` of src/rocev2/engine.cpp: protection domains, memory regions, completion queues
-- and queue pairs.
use smart_nic.Rdma.Reliability.{clear_pending}
use smart_nic.Rdma.Congestion.{clear_flow_state}
use smart_nic.Rdma.Read.{clear_read_state}
use smart_nic.Rdma.QueuePair.Work.{modify}
use smart_nic.Rdma.QueuePair.{RdmaQpConfig, RdmaQpModifyParams}
use smart_nic.Rdma.MrTable.{AccessFlags}
use smart_nic.Base.Assoc.{insert, lookup, erase}
use smart_nic.Rdma.Engine.{RdmaEngine, RdmaQueuePair, RdmaCqe, put_qp, count_error}
use smart_nic.Base.{
  true, false, none, some, [], ◌∷◌, ℕ, Option, Bool, List, if◌then◌else◌, ◌==◌, ◌&&◌, not, ◌||◌,
  is_some, add64, leb, length, add32,
}
use smart_nic.Rdma.PdTable
use smart_nic.Rdma.MrTable
use smart_nic.Rdma.QueuePair
use smart_nic.Rdma.CompletionQueue

-- The test of the loop of `destroy_cq`.
unfoldable pub uses_cq : ℕ → RdmaQueuePair → Bool
uses_cq cq_number q = q.config.send_cq_number == cq_number || q.config.recv_cq_number == cq_number

unfoldable pub cq_in_use : ℕ → List (ℕ × RdmaQueuePair) → Bool
unfolding uses_cq
cq_in_use cq_number [] = false
cq_in_use cq_number ((key, q) ∷ later) =
    let rest = cq_in_use cq_number later in if uses_cq cq_number q then true else rest

module _ {D : Type 0} where
  unfoldable pub create_pd : RdmaEngine D → Option ℕ × RdmaEngine D
  unfolding PdTable.allocate
  create_pd e =
      let (handle, table) = PdTable.allocate e.pd_table in
      if not e.config.enabled then (none, e) else (
        handle,
        record e {
          pd_table = table;
          stats =
              if is_some handle
              then record (e.stats) { pds_created = add64 (e.stats.pds_created) 1 }
              else e.stats;
        },
      )

  unfoldable pub destroy_pd : RdmaEngine D → ℕ → Bool × RdmaEngine D
  unfolding PdTable.deallocate
  destroy_pd e pd_handle =
      let (done, table) = PdTable.deallocate e.pd_table pd_handle in
      if not e.config.enabled then (false, e) else (done, record e { pd_table = table })

  unfoldable pub register_mr : RdmaEngine D → ℕ → ℕ → ℕ → AccessFlags → Option ℕ × RdmaEngine D
  unfolding PdTable.is_valid MrTable.register_mr
  register_mr e pd_handle virtual_address size access =
      let (lkey, table) =
        MrTable.register_mr (e.host.mr_table) pd_handle virtual_address size access in
      if not e.config.enabled
      then (none, e)
      else if not (PdTable.is_valid e.pd_table pd_handle)
      then (none, count_error e)
      else (
        lkey,
        record e {
          host = record (e.host) { mr_table = table };
          stats =
              if is_some lkey
              then record (e.stats) { mrs_registered = add64 (e.stats.mrs_registered) 1 }
              else e.stats;
        },
      )

  unfoldable pub deregister_mr : RdmaEngine D → ℕ → Bool × RdmaEngine D
  unfolding MrTable.deregister_mr
  deregister_mr e lkey =
      let (done, table) = MrTable.deregister_mr (e.host.mr_table) lkey in
      if not e.config.enabled
      then (false, e)
      else (done, record e { host = record (e.host) { mr_table = table } })

  unfoldable pub create_cq : RdmaEngine D → ℕ → Option ℕ × RdmaEngine D
  unfolding CompletionQueue.create insert
  create_cq e depth =
      if not e.config.enabled
      then (none, e)
      else if leb e.config.max_cqs (length e.cqs)
      then (none, count_error e)
      else (
        some e.next_cq_number,
        record e {
          next_cq_number = add32 e.next_cq_number 1;
          cqs = insert e.next_cq_number (CompletionQueue.create e.next_cq_number depth) e.cqs;
          stats = record (e.stats) { cqs_created = add64 (e.stats.cqs_created) 1 };
        },
      )

  unfoldable pub destroy_cq : RdmaEngine D → ℕ → Bool × RdmaEngine D
  unfolding cq_in_use lookup erase
  destroy_cq e cq_number =
      if not e.config.enabled
      then (false, e)
      else if cq_in_use cq_number e.qps
      then (false, e)
      else (is_some (lookup cq_number e.cqs), record e { cqs = erase cq_number e.cqs })

  unfoldable pub poll_cq : RdmaEngine D → ℕ → ℕ → List RdmaCqe × RdmaEngine D
  unfolding CompletionQueue.poll lookup insert
  poll_cq e cq_number max_cqes =
      let found : List RdmaCqe × RdmaEngine D = elim (lookup cq_number e.cqs) [
        | none ↦ ([], e)
        | some queue ↦
            let (result, queue') = CompletionQueue.poll queue max_cqes in
            (result, record e { cqs = insert cq_number queue' e.cqs })
      ] in
      if not e.config.enabled then ([], e) else found

  -- The validation of `create_qp`.
  unfoldable pub has_resources : RdmaEngine D → RdmaQpConfig → Bool
  unfolding PdTable.is_valid lookup
  has_resources e c =
      PdTable.is_valid e.pd_table c.pd_handle
      && (is_some (lookup c.send_cq_number e.cqs) && is_some (lookup c.recv_cq_number e.cqs))

  unfoldable pub create_qp : RdmaEngine D → RdmaQpConfig → Option ℕ × RdmaEngine D
  unfolding has_resources QueuePair.create insert
  create_qp e c =
      if not e.config.enabled
      then (none, e)
      else if leb e.config.max_qps (length e.qps)
      then (none, count_error e)
      else if not (has_resources e c)
      then (none, count_error e)
      else (
        some e.next_qp_number,
        record e {
          next_qp_number = add32 e.next_qp_number 1;
          qps = insert e.next_qp_number (QueuePair.create e.next_qp_number c) e.qps;
          stats = record (e.stats) { qps_created = add64 (e.stats.qps_created) 1 };
        },
      )

  unfoldable pub destroy_qp : RdmaEngine D → ℕ → Bool × RdmaEngine D
  unfolding lookup erase clear_read_state clear_flow_state clear_pending
  destroy_qp e qp_number =
      if not e.config.enabled
      then (false, e)
      else if not (is_some (lookup qp_number e.qps))
      then (false, e)
      else (
        true,
        record e {
          read_processor = clear_read_state e.read_processor qp_number;
          congestion_manager = clear_flow_state e.congestion_manager qp_number;
          reliability_manager = clear_pending e.reliability_manager qp_number;
          qps = erase qp_number e.qps;
        },
      )

  unfoldable pub modify_qp : RdmaEngine D → ℕ → RdmaQpModifyParams → Bool × RdmaEngine D
  unfolding lookup insert modify
  modify_qp e qp_number params =
      let found : Bool × RdmaEngine D = elim (lookup qp_number e.qps) [
        | none ↦ (false, e)
        | some q ↦ let (done, q') = modify q params in (done, put_qp e qp_number q')
      ] in
      if not e.config.enabled then (false, e) else found
