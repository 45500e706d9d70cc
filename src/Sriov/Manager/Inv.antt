-- ===== src/Sriov/Manager/Inv.antt =====
-- The invariant of the manager of src/pf_vf_manager.cpp, and that `create_vf` keeps it.
use mathlib.Core.Path.{fun_ext, subst}
use smart_nic.Base.{
  ℕ, Bool, List, Option, some, none, length, ◌≡◌, ◌≤◌, is_some, ◌<◌, ◌≢◌, ◌+◌, arith, false, ◌⊎◌,
  true, inl, inr, ap,
}
use smart_nic.Base.Assoc.{lookup, lookup-insert}
use smart_nic.Sriov.Bitmap.{no_range, find_free_range, is_free, mark}
use smart_nic.Sriov.Bitmap.Laws.{bit, find_free_range-Found, length-mark}
use smart_nic.Sriov.Bitmap.Exclusive.{Block, Exclusive, given, given-Exclusive}
use smart_nic.Sriov.VirtualFunction
use smart_nic.Sriov.VirtualFunction.{VirtualFunction, VfConfig}
use smart_nic.Sriov.Manager.{
  PfVfManager, ResourceAllocation, ids_from, create_vf, try_allocate_resources, install_vf,
  find_free_queue_range, allocate_resources, find_free_vector_range, mark_queues, mark_vectors,
}

abbrev pub queue_block : Option ResourceAllocation → Option Block
queue_block none = none
queue_block (some a) = some (record { start = a.queue_start; count = a.queue_count })

abbrev pub vector_block : Option ResourceAllocation → Option Block
vector_block none = none
vector_block (some a) = some (record { start = a.vector_start; count = a.vector_count })

-- The blocks that the virtual functions own.
abbrev pub queues_of : PfVfManager → ℕ → Option Block
queues_of m i = queue_block (lookup i m.vf_allocations)

abbrev pub vectors_of : PfVfManager → ℕ → Option Block
vectors_of m i = vector_block (lookup i m.vf_allocations)

-- The bitmaps record exactly who owns what; a virtual function has an allocation, and the other way
-- round, and the queues and vectors that it was told are those of its allocation.
pub record IsSound (m : PfVfManager) : Type 0 where
  pub queues : Exclusive (m.config.pf_reserved_queues) m.queue_allocated (queues_of m)
  pub vectors : Exclusive (m.config.pf_reserved_vectors) m.vector_allocated (vectors_of m)
  pub queues_small : length m.queue_allocated ≤ no_range
  pub vectors_small : length m.vector_allocated ≤ no_range
  pub same_keys : (i : ℕ) → is_some (lookup i m.vfs) ≡ is_some (lookup i m.vf_allocations)
  pub told :
      (i : ℕ) (vf : VirtualFunction) (a : ResourceAllocation)
      → lookup i m.vfs ≡ some vf
      → lookup i m.vf_allocations ≡ some a
      → (vf.queue_ids ≡ ids_from a.queue_start a.queue_count)
        × (vf.vector_ids ≡ ids_from a.vector_start a.vector_count)

pub Exclusive-owns :
    (reserved : ℕ) (bits : List Bool) (owns owns' : ℕ → Option Block)
    → ((i : ℕ) → owns i ≡ owns' i)
    → Exclusive reserved bits owns
    → Exclusive reserved bits owns'
Exclusive-owns reserved bits owns owns' e v = subst (Exclusive reserved bits) (fun_ext e) v

-- What a search that did not fail has found.
abbrev Clear : List Bool → ℕ → ℕ → Type 0
Clear bits start count =
    (0 < count)
    × (start + count ≤ length bits)
    × ((k : ℕ) → start ≤ k → k < start + count → bit bits k ≡ false)

found-Clear :
    (bits : List Bool) (count : ℕ)
    → length bits ≤ no_range
    → find_free_range bits count ≢ no_range
    → Clear bits (find_free_range bits count) count
found-Clear bits count small ne = by_search (find_free_range-Found bits count small)
  where
    by_search :
        ((find_free_range bits count ≡ no_range)
            × ((s : ℕ) → 0 < count → s + count ≤ length bits → is_free bits s count ≡ false))
          ⊎ Clear bits (find_free_range bits count) count
        → Clear bits (find_free_range bits count) count
    by_search (inl (e, _)) = absurd (ne e)
    by_search (inr h) = h

take-Exclusive :
    (reserved : ℕ) (bits : List Bool) (owns owns' : ℕ → Option Block) (i count : ℕ)
    → Exclusive reserved bits owns
    → length bits ≤ no_range
    → owns i ≡ none
    → find_free_range bits count ≢ no_range
    → ((j : ℕ)
        → given i (record { start = find_free_range bits count; count = count }) owns j ≡ owns' j)
    → Exclusive reserved (mark bits (find_free_range bits count) count true) owns'
take-Exclusive reserved bits owns owns' i count v small new ne e =
    let clear = found-Clear bits count small ne in
    Exclusive-owns reserved _ _ owns' e (
      given-Exclusive reserved bits owns v i
        (record { start = find_free_range bits count; count = count }) new clear.0 clear.1
        (λ k w. clear.2 k w.0 w.1))

module _ (m : PfVfManager) (id : ℕ) (c : VfConfig) (v : IsSound m) (new : lookup id m.vfs ≡ none)
    (has_queues : find_free_range m.queue_allocated c.num_queues ≢ no_range)
    (has_vectors : find_free_range m.vector_allocated c.num_vectors ≢ no_range) where
  unallocated : lookup id m.vf_allocations ≡ none
  unallocated = ground (arith, v.same_keys id)

  allocation : ResourceAllocation
  allocation = record {
    queue_start = find_free_range m.queue_allocated c.num_queues;
    queue_count = c.num_queues;
    vector_start = find_free_range m.vector_allocated c.num_vectors;
    vector_count = c.num_vectors;
  }

  install_vf-IsSound : IsSound (install_vf m id c)
  unfolding install_vf allocate_resources find_free_queue_range find_free_vector_range mark_queues
      mark_vectors allocation VirtualFunction.set_vector_ids VirtualFunction.set_queue_ids
  install_vf-IsSound = record {
    queues =
        take-Exclusive _ m.queue_allocated (queues_of m) _ id c.num_queues v.queues v.queues_small
          (ap queue_block unallocated) has_queues
          (λ j. ground (arith, lookup-insert id j allocation m.vf_allocations));
    vectors =
        take-Exclusive _ m.vector_allocated (vectors_of m) _ id c.num_vectors v.vectors
          v.vectors_small (ap vector_block unallocated) has_vectors
          (λ j. ground (arith, lookup-insert id j allocation m.vf_allocations));
    queues_small = omega (arith, v.queues_small, length-mark m.queue_allocated _ c.num_queues true);
    vectors_small =
        omega (arith, v.vectors_small, length-mark m.vector_allocated _ c.num_vectors true);
    same_keys = λ j. ground (
      arith,
      v.same_keys j,
      lookup-insert id j allocation m.vf_allocations,
      lookup-insert id j
          (VirtualFunction.set_vector_ids
            (VirtualFunction.set_queue_ids (VirtualFunction.create c)
              (ids_from allocation.queue_start c.num_queues))
            (ids_from allocation.vector_start c.num_vectors))
          m.vfs,
    );
    told = λ j vf a e f. ground (
      arith,
      v.told j vf a,
      lookup-insert id j allocation m.vf_allocations,
      lookup-insert id j
          (VirtualFunction.set_vector_ids
            (VirtualFunction.set_queue_ids (VirtualFunction.create c)
              (ids_from allocation.queue_start c.num_queues))
            (ids_from allocation.vector_start c.num_vectors))
          m.vfs,
    );
  }

-- Creating a virtual function keeps the invariant, on success and on each refusal.
pub create_vf-IsSound :
    (m : PfVfManager) (id : ℕ) (c : VfConfig) → IsSound m → IsSound (create_vf m id c).1
unfolding create_vf try_allocate_resources find_free_queue_range find_free_vector_range
create_vf-IsSound m id c v = ground (arith, install_vf-IsSound m id c v)
