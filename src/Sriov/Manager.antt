-- ===== src/Sriov/Manager.antt =====
-- include/nic/pf_vf_manager.h and src/pf_vf_manager.cpp: the physical function hands out queues and
-- interrupt vectors to virtual functions.
pub mod Inv
pub mod Calls
pub mod Run
use smart_nic.Base.{
  ℕ, zero, suc, Bool, true, false, List, [], ◌∷◌, Option, some, none, replicate, if◌then◌else◌,
  is_some, ◌%◌, ◌+◌, ◌==◌, ◌^◌, leb, length, not,
}
use smart_nic.Base.Assoc.{lookup, insert, erase}
use smart_nic.Sriov.Bitmap.{no_range, find_free_range, mark, count_free}
use smart_nic.Sriov.VirtualFunction
use smart_nic.Sriov.VirtualFunction.{VirtualFunction, VfConfig, VfState}

pub record PfConfig : Type 0 where
  pub max_vfs : ℕ
  pub total_queues : ℕ
  pub total_vectors : ℕ
  pub pf_reserved_queues : ℕ
  pub pf_reserved_vectors : ℕ

pub record ResourceAllocation : Type 0 where
  pub queue_start : ℕ
  pub queue_count : ℕ
  pub vector_start : ℕ
  pub vector_count : ℕ

pub record PfVfManager : Type 0 where
  pub config : PfConfig
  pub vfs : List (ℕ × VirtualFunction)
  pub vf_allocations : List (ℕ × ResourceAllocation)
  pub queue_allocated : List Bool
  pub vector_allocated : List Bool

-- The constructor: all bits clear, then the physical function's own marked.
unfoldable pub create : PfConfig → PfVfManager
create c = record {
  config = c;
  vfs = [];
  vf_allocations = [];
  queue_allocated = mark (replicate c.total_queues false) 0 c.pf_reserved_queues true;
  vector_allocated = mark (replicate c.total_vectors false) 0 c.pf_reserved_vectors true;
}

unfoldable pub find_free_queue_range : PfVfManager → ℕ → ℕ
find_free_queue_range m count = find_free_range m.queue_allocated count

unfoldable pub find_free_vector_range : PfVfManager → ℕ → ℕ
find_free_vector_range m count = find_free_range m.vector_allocated count

unfoldable pub mark_queues : PfVfManager → ℕ → ℕ → Bool → PfVfManager
mark_queues m start count value = record m {
  queue_allocated = mark m.queue_allocated start count value;
}

unfoldable pub mark_vectors : PfVfManager → ℕ → ℕ → Bool → PfVfManager
mark_vectors m start count value = record m {
  vector_allocated = mark m.vector_allocated start count value;
}

unfoldable pub try_allocate_resources : PfVfManager → ℕ → ℕ → Option ResourceAllocation
unfolding find_free_queue_range find_free_vector_range
try_allocate_resources m num_queues num_vectors =
    let queue_start = find_free_queue_range m num_queues in
    let vector_start = find_free_vector_range m num_vectors in
    if queue_start == no_range
    then none
    else if vector_start == no_range
    then none
    else some (record {
      queue_start = queue_start;
      queue_count = num_queues;
      vector_start = vector_start;
      vector_count = num_vectors;
    })

unfoldable pub has_available_resources : PfVfManager → ℕ → ℕ → Bool
unfolding try_allocate_resources
has_available_resources m num_queues num_vectors =
    is_some (try_allocate_resources m num_queues num_vectors)

unfoldable pub allocate_resources : PfVfManager → ℕ → ℕ → ResourceAllocation × PfVfManager
unfolding find_free_queue_range find_free_vector_range mark_queues mark_vectors
allocate_resources m num_queues num_vectors =
    let queue_start = find_free_queue_range m num_queues in
    let vector_start = find_free_vector_range m num_vectors in
    (
      record {
        queue_start = queue_start;
        queue_count = num_queues;
        vector_start = vector_start;
        vector_count = num_vectors;
      },
      mark_vectors (mark_queues m queue_start num_queues true) vector_start num_vectors true,
    )

unfoldable pub free_resources : PfVfManager → ResourceAllocation → PfVfManager
unfolding mark_queues mark_vectors
free_resources m a =
    mark_vectors (mark_queues m a.queue_start a.queue_count false) a.vector_start a.vector_count
      false

-- The numbers `start`, `start + 1`, ..., each stored in 16 bits.
unfoldable pub ids_from : ℕ → ℕ → List ℕ
ids_from start zero = []
ids_from start (suc count) = start % 2 ^ 16 ∷ ids_from (start + 1) count

-- The end of `create_vf`, behind its three refusals.
unfoldable pub install_vf : PfVfManager → ℕ → VfConfig → PfVfManager
unfolding allocate_resources ids_from
install_vf m vf_id c =
    let (a, m') = allocate_resources m c.num_queues c.num_vectors in
    let vf =
      VirtualFunction.set_vector_ids
        (VirtualFunction.set_queue_ids (VirtualFunction.create c)
          (ids_from a.queue_start a.queue_count))
        (ids_from a.vector_start a.vector_count) in
    record m' { vf_allocations = insert vf_id a m.vf_allocations; vfs = insert vf_id vf m.vfs }

unfoldable pub create_vf : PfVfManager → ℕ → VfConfig → Bool × PfVfManager
unfolding install_vf try_allocate_resources
create_vf m vf_id c =
    if is_some (lookup vf_id m.vfs)
    then (false, m)
    else if leb (m.config.max_vfs) (length m.vfs)
    then (false, m)
    else if not (is_some (try_allocate_resources m c.num_queues c.num_vectors))
    then (false, m)
    else (true, install_vf m vf_id c)

unfoldable pub release : PfVfManager → ℕ → Option ResourceAllocation → PfVfManager
unfolding free_resources
release m vf_id none = m
release m vf_id (some a) = record (free_resources m a) {
  vf_allocations = erase vf_id m.vf_allocations;
}

unfoldable pub destroy_vf : PfVfManager → ℕ → Bool × PfVfManager
unfolding release
destroy_vf m vf_id =
    if is_some (lookup vf_id m.vfs)
    then (
      true,
      record (release m vf_id (lookup vf_id m.vf_allocations)) { vfs = erase vf_id m.vfs },
    )
    else (false, m)

-- A call on the virtual function itself, if there is one.
unfoldable pub on_vf :
    (VirtualFunction → Bool × VirtualFunction)
    → PfVfManager
    → ℕ
    → Option VirtualFunction
    → Bool × PfVfManager
on_vf f m vf_id none = (false, m)
on_vf f m vf_id (some vf) =
    let (done, vf') = f vf in (done, record m { vfs = insert vf_id vf' m.vfs })

unfoldable pub enable_vf : PfVfManager → ℕ → Bool × PfVfManager
unfolding on_vf
enable_vf m vf_id = on_vf VirtualFunction.enable m vf_id (lookup vf_id m.vfs)

unfoldable pub disable_vf : PfVfManager → ℕ → Bool × PfVfManager
unfolding on_vf
disable_vf m vf_id = on_vf VirtualFunction.disable m vf_id (lookup vf_id m.vfs)

unfoldable pub reset_vf : PfVfManager → ℕ → Bool × PfVfManager
unfolding on_vf
reset_vf m vf_id = on_vf VirtualFunction.reset m vf_id (lookup vf_id m.vfs)

count_active : List (ℕ × VirtualFunction) → ℕ
count_active [] = 0
count_active ((i, vf) ∷ m) = elim vf.state [
  | VfState.running ↦ count_active m + 1
  | _ ↦ count_active m
]

unfoldable pub num_active_vfs : PfVfManager → ℕ
unfolding count_active
num_active_vfs m = count_active m.vfs

unfoldable pub available_queues : PfVfManager → ℕ
available_queues m = count_free 0 m.queue_allocated

unfoldable pub available_vectors : PfVfManager → ℕ
available_vectors m = count_free 0 m.vector_allocated
