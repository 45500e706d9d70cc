-- ===== src/Sriov/Manager/Calls.antt =====
-- The other calls of src/pf_vf_manager.cpp, and the constructor, keep the invariant.
use smart_nic.Base.{
  ℕ, Bool, ◌≤◌, ◌≡◌, Option-cases, replicate, some, inl, false, inr, true, arith, none, ap,
  length-replicate, refl,
}
use smart_nic.Base.Assoc.{lookup, lookup-insert, lookup-erase, erase}
use smart_nic.Sriov.Bitmap.{no_range, mark}
use smart_nic.Sriov.Bitmap.Laws.{length-mark, mark-first}
use smart_nic.Sriov.Bitmap.Exclusive.{Exclusive, returned, returned-Exclusive}
use smart_nic.Sriov.VirtualFunction
use smart_nic.Sriov.VirtualFunction.{VirtualFunction}
use smart_nic.Sriov.Manager.{
  PfVfManager, PfConfig, ResourceAllocation, create, destroy_vf, release, free_resources,
  mark_queues, mark_vectors, on_vf, enable_vf, disable_vf, reset_vf,
}
use smart_nic.Sriov.Manager.Inv.{
  IsSound, queue_block, vector_block, queues_of, vectors_of, Exclusive-owns,
}

-- A new manager has given out nothing.
pub create-IsSound :
    (c : PfConfig) → c.total_queues ≤ no_range → c.total_vectors ≤ no_range → IsSound (create c)
unfolding create lookup
create-IsSound c q w = record {
  queues = set_aside_first c.pf_reserved_queues c.total_queues;
  vectors = set_aside_first c.pf_reserved_vectors c.total_vectors;
  queues_small = omega (
    arith,
    q,
    length-mark (replicate c.total_queues false) 0 c.pf_reserved_queues true,
    length-replicate c.total_queues false,
  );
  vectors_small = omega (
    arith,
    w,
    length-mark (replicate c.total_vectors false) 0 c.pf_reserved_vectors true,
    length-replicate c.total_vectors false,
  );
  same_keys = λ i. refl;
  told = λ i vf a e f. ground arith;
}
  where
    set_aside_first :
        (reserved total : ℕ)
        → Exclusive reserved (mark (replicate total false) 0 reserved true) (λ i. none)
    set_aside_first reserved total = record {
      inside = λ i b e. ground arith;
      held = λ i b e k h. ground arith;
      apart = λ i j a b e f ne. ground arith;
      set_aside = λ k h l.
          mark-first (replicate total false) 0 reserved k (omega arith) (omega (arith, h))
            (omega (arith, l, length-mark (replicate total false) 0 reserved true));
    }

module _ (m : PfVfManager) (id : ℕ) (v : IsSound m) where
  module _ (vf : VirtualFunction) (a : ResourceAllocation) (e : lookup id m.vfs ≡ some vf)
      (f : lookup id m.vf_allocations ≡ some a) where
    release-IsSound : IsSound (record (release m id (some a)) { vfs = erase id m.vfs })
    unfolding release free_resources mark_queues mark_vectors
    release-IsSound = record {
      queues =
          Exclusive-owns _ _ (returned id (queues_of m)) _
            (λ j. ground (arith, lookup-erase id j m.vf_allocations))
            (returned-Exclusive _ m.queue_allocated (queues_of m) v.queues id
              (record { start = a.queue_start; count = a.queue_count }) (ap queue_block f));
      vectors =
          Exclusive-owns _ _ (returned id (vectors_of m)) _
            (λ j. ground (arith, lookup-erase id j m.vf_allocations))
            (returned-Exclusive _ m.vector_allocated (vectors_of m) v.vectors id
              (record { start = a.vector_start; count = a.vector_count }) (ap vector_block f));
      queues_small =
          omega (
            arith,
            v.queues_small,
            length-mark m.queue_allocated a.queue_start a.queue_count false,
          );
      vectors_small = omega (
        arith,
        v.vectors_small,
        length-mark m.vector_allocated a.vector_start a.vector_count false,
      );
      same_keys = λ j.
          ground
            (arith, v.same_keys j, lookup-erase id j m.vf_allocations, lookup-erase id j m.vfs);
      told = λ j w b g h.
          ground (arith, v.told j w b, lookup-erase id j m.vf_allocations, lookup-erase id j m.vfs);
    }

  -- Destroying a virtual function keeps the invariant.
  pub destroy_vf-IsSound : IsSound (destroy_vf m id).1
  unfolding destroy_vf
  destroy_vf-IsSound = elim (Option-cases (lookup id m.vfs)) [
    | inl missing ↦ rw missing v
    | inr (vf, e) ↦ elim (Option-cases (lookup id m.vf_allocations)) [
      | inl never ↦ ground (arith, v.same_keys id)
      | inr (a, f) ↦ rw e (rw f (release-IsSound vf a e f))
    ]
  ]

  -- A call on a virtual function that leaves its queues and vectors keeps the invariant.
  on_vf-IsSound :
      (f : VirtualFunction → Bool × VirtualFunction)
      → ((vf : VirtualFunction)
          → ((f vf).1.queue_ids ≡ vf.queue_ids) × ((f vf).1.vector_ids ≡ vf.vector_ids))
      → IsSound (on_vf f m id (lookup id m.vfs)).1
  unfolding on_vf
  on_vf-IsSound f same = elim (Option-cases (lookup id m.vfs)) [
    | inl missing ↦ rw missing v
    | inr (vf, e) ↦ rw e (record {
      queues = v.queues;
      vectors = v.vectors;
      queues_small = v.queues_small;
      vectors_small = v.vectors_small;
      same_keys = λ j. ground (arith, v.same_keys j, lookup-insert id j (f vf).1 m.vfs);
      told = λ j w b g h.
          ground (arith, v.told j w b, v.told id vf b, same vf, lookup-insert id j (f vf).1 m.vfs);
    })
  ]

  pub enable_vf-IsSound : IsSound (enable_vf m id).1
  unfolding enable_vf VirtualFunction.enable VirtualFunction.enter
  enable_vf-IsSound = on_vf-IsSound VirtualFunction.enable (λ vf. ground arith)

  pub disable_vf-IsSound : IsSound (disable_vf m id).1
  unfolding disable_vf VirtualFunction.disable VirtualFunction.enter
  disable_vf-IsSound = on_vf-IsSound VirtualFunction.disable (λ vf. ground arith)

  pub reset_vf-IsSound : IsSound (reset_vf m id).1
  unfolding reset_vf VirtualFunction.reset VirtualFunction.enter
  reset_vf-IsSound = on_vf-IsSound VirtualFunction.reset (λ vf. (refl, refl))
