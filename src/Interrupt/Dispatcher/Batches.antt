-- ===== src/Interrupt/Dispatcher/Batches.antt =====
-- Where the completions that src/interrupt_dispatcher.cpp accepts go.
use smart_nic.Base.{
  none, some, Option-cases, ◌∷◌, [], Bool-cases, inl, inr, ℕ, List, ◌+◌, ◌≡◌, ◌≢◌, arith,
  if◌then◌else◌, ◌==◌, add32, Bool, ◌<◌, ◌^◌, false, ◌&&◌, not,
}
use smart_nic.Base.Assoc.{insert, erase, lookup-insert, lookup-erase}
use smart_nic.Interrupt.Msix
use smart_nic.Interrupt.Dispatcher.{
  InterruptDispatcher, count_at, fire, update_adaptive_threshold, MsixTable, try_fire,
  count_completion, on_completion, suppress_disabled, threshold_of, fire_and_forget,
  suppress_masked, get_coalesce_config,
}

-- The completions delivered for a vector, over all its batches.
abbrev pub batches : ℕ → List (ℕ × ℕ) → ℕ
batches v [] = 0
batches v ((w, n) ∷ rest) = (if w == v then n else 0) + batches v rest

-- Delivered or waiting, for one vector.
abbrev pub accounted : InterruptDispatcher → ℕ → ℕ
accounted d v = batches v d.delivered + count_at d.pending_counts v

count_at-insert :
    (k j n : ℕ) (m : List (ℕ × ℕ))
    → count_at (insert k n m) j ≡ (if k == j then n else count_at m j)
unfolding count_at
count_at-insert k j n m = ground (arith, lookup-insert k j n m)

pub count_at-erase :
    (k j : ℕ) (m : List (ℕ × ℕ)) → count_at (erase k m) j ≡ (if k == j then 0 else count_at m j)
unfolding count_at
count_at-erase k j m = ground (arith, lookup-erase k j m)

-- The batch that a firing delivers.
abbrev pub batch_of : ℕ → ℕ
batch_of pending = if pending == 0 then 1 else pending

pub fire-delivered :
    (d : InterruptDispatcher) (v : ℕ)
    → ((fire d v).delivered ≡ (v, batch_of (count_at d.pending_counts v)) ∷ d.delivered)
      × ((fire d v).pending_counts ≡ erase v d.pending_counts)
unfolding fire update_adaptive_threshold
fire-delivered d v = elim (Bool-cases d.adaptive.enabled) [
  | inl adaptive ↦ ground (arith, adaptive)
  | inr fixed ↦ ground (arith, fixed)
]

-- Firing moves what waits into a batch.
fire-accounted :
    (d : InterruptDispatcher) (v w : ℕ)
    → count_at d.pending_counts v ≢ 0
    → accounted (fire d v) w ≡ accounted d w
fire-accounted d v w h =
    let fired = fire-delivered d v in
    rw fired.0 (rw fired.1 (ground (arith, h, count_at-erase v w d.pending_counts)))

-- A vector of the table that is enabled and not masked.
abbrev pub takes : MsixTable → ℕ → Bool
takes t v = elim (Msix.vector t v) [ none ↦ false | some vec ↦ vec.enabled && not vec.masked ]

-- A call of `try_fire` for a vector with waiting completions loses none and makes up none.
pub try_fire-accounted :
    (d : InterruptDispatcher) (v w : ℕ)
    → count_at d.pending_counts v ≢ 0
    → accounted (try_fire d v) w ≡ accounted d w
unfolding try_fire suppress_disabled suppress_masked
try_fire-accounted d v w h = elim (Option-cases (Msix.vector d.table v)) [
  | inl missing ↦ ground (arith, missing)
  | inr (vec, e) ↦ ground (arith, e, fire-accounted d v w h)
]

-- The dispatcher with the completion counted, before it may fire.
abbrev counted : InterruptDispatcher → ℕ → ℕ → InterruptDispatcher
counted d queue_id v = record d {
  pending_counts = insert v (add32 (count_at d.pending_counts v) 1) d.pending_counts;
  pending_time_us = insert v 0 d.pending_time_us;
  adaptive_state = (threshold_of d v (get_coalesce_config d queue_id)).1;
}

count_completion-accounted :
    (d : InterruptDispatcher) (queue_id v w : ℕ)
    → count_at d.pending_counts v + 1 < 2 ^ 32
    → accounted (count_completion d queue_id v) w ≡ accounted d w + (if v == w then 1 else 0)
unfolding count_completion fire_and_forget
count_completion-accounted d queue_id v w h =
    let n = add32 (count_at d.pending_counts v) 1 in
    let before = count_at-insert v w n d.pending_counts in
    let waiting = count_at-insert v v n d.pending_counts in
    let fired = try_fire-accounted (counted d queue_id v) v w (ground (arith, h, waiting)) in
    ground (arith, h, before, fired)

-- Where fewer than 2^32 - 1 completions wait for the vector of a queue: a completion of the queue is
-- accepted exactly if the vector is in the table, enabled and not masked, and then adds one to the
-- completions that were delivered for that vector or wait for it. No vector loses or gains
-- completions otherwise, whether the call fires an interrupt or not.
pub on_completion-accounted :
    (d : InterruptDispatcher) (queue_id w : ℕ)
    → count_at d.pending_counts (Msix.queue_vector d.mapping queue_id) + 1 < 2 ^ 32
    → let v = Msix.queue_vector d.mapping queue_id in
      let (ok, d') = on_completion d queue_id in
      (ok ≡ takes d.table v) × (accounted d' w ≡ accounted d w + (if ok && v == w then 1 else 0))
unfolding on_completion suppress_disabled suppress_masked
on_completion-accounted d queue_id w h =
    let v = Msix.queue_vector d.mapping queue_id in
    elim (Option-cases (Msix.vector d.table v)) [
      | inl missing ↦ ground (arith, missing)
      | inr (vec, e) ↦ ground (arith, e, count_completion-accounted d queue_id v w h)
    ]
