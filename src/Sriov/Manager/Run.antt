-- ===== src/Sriov/Manager/Run.antt =====
-- Runs of calls on the manager of src/pf_vf_manager.cpp.
use smart_nic.Sriov.Bitmap.{find_free_range}
use smart_nic.Sriov.Bitmap.Laws.{length-mark}
use smart_nic.Base.{
  length-replicate, length, ℕ, Bool, List, [], ◌∷◌, Option, some, none, ◌≡◌, ◌≢◌, ◌≤◌, arith, ◌∙◌,
  Option-cases, ap, ◌+◌, refl, true, inl, inr, false, replicate,
}
use smart_nic.Base.Assoc.{lookup}
use smart_nic.Sriov.Bitmap.{no_range}
use smart_nic.Sriov.Bitmap.Exclusive.{Block, Disjoint}
use smart_nic.Sriov.VirtualFunction.{VirtualFunction, VfConfig}
use smart_nic.Sriov.Manager.{
  install_vf, allocate_resources, mark_queues, mark_vectors, release, free_resources, on_vf,
  find_free_queue_range, find_free_vector_range, PfVfManager, PfConfig, ids_from,
  ResourceAllocation, create, create_vf, destroy_vf, enable_vf, disable_vf, reset_vf,
}
use smart_nic.Sriov.Manager.Inv.{IsSound, create_vf-IsSound, queue_block, vector_block}
use smart_nic.Sriov.Manager.Calls.{
  create-IsSound, destroy_vf-IsSound, enable_vf-IsSound, disable_vf-IsSound, reset_vf-IsSound,
}

-- The calls that change the manager.
pub data Call : Type 0 where
  creates : ℕ → VfConfig → Call
  destroys enables disables resets : ℕ → Call

unfoldable pub step : PfVfManager → Call → PfVfManager
step m (creates id c) = (create_vf m id c).1
step m (destroys id) = (destroy_vf m id).1
step m (enables id) = (enable_vf m id).1
step m (disables id) = (disable_vf m id).1
step m (resets id) = (reset_vf m id).1

unfoldable pub run : PfVfManager → List Call → PfVfManager
run m [] = m
run m (c ∷ cs) = run (step m c) cs

step-IsSound : (m : PfVfManager) (c : Call) → IsSound m → IsSound (step m c)
unfolding step
step-IsSound m (creates id c) v = create_vf-IsSound m id c v
step-IsSound m (destroys id) v = destroy_vf-IsSound m id v
step-IsSound m (enables id) v = enable_vf-IsSound m id v
step-IsSound m (disables id) v = disable_vf-IsSound m id v
step-IsSound m (resets id) v = reset_vf-IsSound m id v

run-IsSound : (m : PfVfManager) (cs : List Call) → IsSound m → IsSound (run m cs)
unfolding run
run-IsSound m [] v = v
run-IsSound m (c ∷ cs) v = run-IsSound (step m c) cs (step-IsSound m c v)

-- What no call changes.
abbrev Keeps : PfVfManager → PfVfManager → Type 0
Keeps m n =
    (n.config ≡ m.config)
    × (length n.queue_allocated ≡ length m.queue_allocated)
    × (length n.vector_allocated ≡ length m.vector_allocated)

by_vf :
    (f : VirtualFunction → Bool × VirtualFunction) (m : PfVfManager) (id : ℕ)
    (o : Option VirtualFunction)
    → Keeps m (on_vf f m id o).1
unfolding on_vf
by_vf f m id none = (refl, refl, refl)
by_vf f m id (some vf) = (refl, refl, refl)

release-Keeps :
    (m : PfVfManager) (id : ℕ) (o : Option ResourceAllocation) → Keeps m (release m id o)
unfolding release free_resources mark_queues mark_vectors
release-Keeps m id none = (refl, refl, refl)
release-Keeps m id (some a) = (
  refl,
  length-mark m.queue_allocated a.queue_start a.queue_count false,
  length-mark m.vector_allocated a.vector_start a.vector_count false,
)

step-Keeps : (m : PfVfManager) (c : Call) → Keeps m (step m c)
unfolding step create_vf install_vf allocate_resources mark_queues mark_vectors destroy_vf release
    free_resources enable_vf disable_vf reset_vf on_vf find_free_queue_range find_free_vector_range
step-Keeps m (creates id c) = ground (
  arith,
  length-mark m.queue_allocated (find_free_range m.queue_allocated c.num_queues) c.num_queues true,
  length-mark m.vector_allocated (find_free_range m.vector_allocated c.num_vectors) c.num_vectors
      true,
)
step-Keeps m (destroys id) = ground (arith, release-Keeps m id (lookup id m.vf_allocations))
step-Keeps m (enables id) = by_vf _ m id (lookup id m.vfs)
step-Keeps m (disables id) = by_vf _ m id (lookup id m.vfs)
step-Keeps m (resets id) = by_vf _ m id (lookup id m.vfs)

run-Keeps : (m : PfVfManager) (cs : List Call) → Keeps m (run m cs)
unfolding run
run-Keeps m [] = (refl, refl, refl)
run-Keeps m (c ∷ cs) =
    let now = step-Keeps m c in
    let later = run-Keeps (step m c) cs in (later.0 ∙ now.0, later.1 ∙ now.1, later.2 ∙ now.2)

-- A virtual function was told the queues and vectors of its allocation, which lies behind those of
-- the physical function and within the totals.
abbrev pub Owns : PfConfig → VirtualFunction → ResourceAllocation → Type 0
Owns c vf a =
    (vf.queue_ids ≡ ids_from a.queue_start a.queue_count)
    × (vf.vector_ids ≡ ids_from a.vector_start a.vector_count)
    × (c.pf_reserved_queues ≤ a.queue_start)
    × (a.queue_start + a.queue_count ≤ c.total_queues)
    × (c.pf_reserved_vectors ≤ a.vector_start)
    × (a.vector_start + a.vector_count ≤ c.total_vectors)

abbrev pub queues_in : ResourceAllocation → Block
queues_in a = record { start = a.queue_start; count = a.queue_count }

abbrev pub vectors_in : ResourceAllocation → Block
vectors_in a = record { start = a.vector_start; count = a.vector_count }

module _ (c : PfConfig) (cs : List Call) (q : c.total_queues ≤ no_range)
    (w : c.total_vectors ≤ no_range) where
  abbrev final : PfVfManager
  final = run (create c) cs

  final-IsSound : IsSound final
  final-IsSound = run-IsSound (create c) cs (create-IsSound c q w)

  owner :
      (i : ℕ) (vf : VirtualFunction)
      → lookup i final.vfs ≡ some vf
      → (a : ResourceAllocation) × (lookup i final.vf_allocations ≡ some a) × Owns c vf a
  unfolding create
  owner i vf e = elim (Option-cases (lookup i final.vf_allocations)) [
    | inl missing ↦ ground (arith, final-IsSound.same_keys i)
    | inr (a, f) ↦
        let v = final-IsSound in
        let told = v.told i vf a e f in
        let qs = v.queues.inside i (queues_in a) (ap queue_block f) in
        let vs = v.vectors.inside i (vectors_in a) (ap vector_block f) in
        let keeps = run-Keeps (create c) cs in
        (
          a,
          f,
          (
            told.0,
            told.1,
            ground (arith, keeps, qs),
            ground (
              arith,
              keeps,
              qs,
              length-mark (replicate c.total_queues false) 0 c.pf_reserved_queues true,
              length-replicate c.total_queues false,
            ),
            ground (arith, keeps, vs),
            ground (
              arith,
              keeps,
              vs,
              length-mark (replicate c.total_vectors false) 0 c.pf_reserved_vectors true,
              length-replicate c.total_vectors false,
            ),
          ),
        )
  ]

  -- After any calls on a new manager of at most 0xffff queues and 0xffff vectors, any two different
  -- virtual functions own allocations behind those of the physical function and within the totals,
  -- were told exactly the queues and vectors of these, and share no queue and no vector.
  pub run-create-Disjoint :
      (i j : ℕ) (vf wf : VirtualFunction)
      → lookup i final.vfs ≡ some vf
      → lookup j final.vfs ≡ some wf
      → i ≢ j
      → (a : ResourceAllocation) × (b : ResourceAllocation) × Owns c vf a
        × Owns c wf b
        × Disjoint (queues_in a) (queues_in b)
        × Disjoint (vectors_in a) (vectors_in b)
  run-create-Disjoint i j vf wf e f ne =
      let (a, g, own) = owner i vf e in
      let (b, h, own') = owner j wf f in
      let v = final-IsSound in
      (
        a,
        b,
        own,
        own',
        v.queues.apart i j (queues_in a) (queues_in b) (ap queue_block g) (ap queue_block h) ne,
        v.vectors.apart i j (vectors_in a) (vectors_in b) (ap vector_block g) (ap vector_block h)
            ne,
      )
