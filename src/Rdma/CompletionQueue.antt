-- ===== src/Rdma/CompletionQueue.antt =====
-- include/nic/rocev2/completion_queue.h and src/rocev2/completion_queue.cpp. The deque is a list,
-- its front first.
pub mod Polls
use smart_nic.Base.{
  ℕ, Bool, true, false, List, [], ◌∷◌, ◌++◌, Option, some, none, refl, leb, if◌then◌else◌, drop,
  suc, min, add64, ◌&&◌, ◌≤◌, take, length, zero, not, ◌≡◌,
}
use smart_nic.Rdma.Wqe.{RdmaCqe}

pub record RdmaCqStats : Type 0 where
  pub cqes_posted : ℕ
  pub cqes_polled : ℕ
  pub overflows : ℕ
  pub arm_count : ℕ

pub record RdmaCompletionQueue : Type 0 where
  pub cq_number : ℕ
  pub depth : ℕ
  pub cqes : List RdmaCqe
  pub armed : Bool
  pub has_new_completions : Bool
  pub stats : RdmaCqStats

abbrev pub no_stats : RdmaCqStats
no_stats = record { cqes_posted = 0; cqes_polled = 0; overflows = 0; arm_count = 0 }

unfoldable pub create : ℕ → ℕ → RdmaCompletionQueue
create number depth = record {
  cq_number = number;
  depth = depth;
  cqes = [];
  armed = false;
  has_new_completions = false;
  stats = no_stats;
}

unfoldable pub is_full : RdmaCompletionQueue → Bool
is_full q = leb q.depth (length q.cqes)

unfoldable pub post : RdmaCompletionQueue → RdmaCqe → Bool × RdmaCompletionQueue
unfolding is_full
post q cqe =
    if is_full q
    then (false, record q { stats = record (q.stats) { overflows = add64 (q.stats.overflows) 1 } })
    else (
      true,
      record q {
        cqes = q.cqes ++ (cqe ∷ []);
        has_new_completions = true;
        stats = record (q.stats) { cqes_posted = add64 (q.stats.cqes_posted) 1 };
      },
    )

pop_front : RdmaCompletionQueue → RdmaCompletionQueue
pop_front q = record q {
  cqes = drop 1 q.cqes;
  stats = record (q.stats) { cqes_polled = add64 (q.stats.cqes_polled) 1 };
}

-- The loop of `poll`, `rounds` of it left; it is never run on an empty deque.
poll_loop : ℕ → RdmaCompletionQueue → List RdmaCqe × RdmaCompletionQueue
unfolding pop_front
poll_loop zero q = ([], q)
poll_loop (suc rounds) q =
    let (result, q') = poll_loop rounds (pop_front q) in (take 1 q.cqes ++ result, q')

abbrev empty_list {ℓ} : {A : Type ℓ} → List A → Bool
empty_list [] = true
empty_list (x ∷ xs) = false

-- The flag is cleared if entries remain.
unfoldable pub poll : RdmaCompletionQueue → ℕ → List RdmaCqe × RdmaCompletionQueue
unfolding poll_loop
poll q max_cqes =
    let (result, q') = poll_loop (min max_cqes (length q.cqes)) q in
    (
      result,
      record q' {
        has_new_completions = if not (empty_list q'.cqes) then false else q'.has_new_completions;
      },
    )

-- The flag is cleared if no entry remains.
unfoldable pub poll_one : RdmaCompletionQueue → Option RdmaCqe × RdmaCompletionQueue
unfolding pop_front
poll_one q = elim q.cqes [
  | [] ↦ (none, q)
  | cqe ∷ rest ↦ (
    some cqe,
    record (pop_front q) {
      has_new_completions = if empty_list rest then false else q.has_new_completions;
    },
  )
]

unfoldable pub arm : RdmaCompletionQueue → RdmaCompletionQueue
arm q = record q {
  armed = true;
  has_new_completions = false;
  stats = record (q.stats) { arm_count = add64 (q.stats.arm_count) 1 };
}

unfoldable pub clear_arm : RdmaCompletionQueue → RdmaCompletionQueue
clear_arm q = record q { armed = false }

unfoldable pub should_notify : RdmaCompletionQueue → Bool
should_notify q = q.armed && q.has_new_completions

unfoldable pub reset : RdmaCompletionQueue → RdmaCompletionQueue
reset q = record q { cqes = []; armed = false; has_new_completions = false; stats = no_stats }
