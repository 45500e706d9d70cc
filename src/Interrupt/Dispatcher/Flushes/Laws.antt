-- ===== src/Interrupt/Dispatcher/Flushes/Laws.antt =====
-- What a flush of one vector does, from src/interrupt_dispatcher.cpp.
use smart_nic.Base.{ℕ, Option-cases, inl, inr, none, some, ◌≡◌, ◌≢◌, if◌then◌else◌, arith}
use smart_nic.Base.Assoc.{lookup, lookup-erase}
use smart_nic.Interrupt.Msix
use smart_nic.Interrupt.Dispatcher.{
  InterruptDispatcher, count_at, try_fire, fire_and_forget, suppress_disabled, suppress_masked,
}
use smart_nic.Interrupt.Dispatcher.Batches.{
  accounted, takes, try_fire-accounted, fire-delivered, count_at-erase,
}
use smart_nic.Interrupt.Dispatcher.Flushes.{flush}

try_fire-pending :
    (d : InterruptDispatcher) (v : ℕ)
    → count_at (try_fire d v).pending_counts v
      ≡ (if takes d.table v then 0 else count_at d.pending_counts v)
unfolding try_fire suppress_disabled suppress_masked
try_fire-pending d v = elim (Option-cases (Msix.vector d.table v)) [
  | inl missing ↦ ground (arith, missing)
  | inr (vec, e) ↦
      let fired = (fire-delivered d v).1 in
      ground (arith, e, fired, count_at-erase v v d.pending_counts)
]

-- Flushing one vector that has completions waiting leaves none of them waiting if the vector is in
-- the table, enabled and not masked, and all of them otherwise; either way each completion of each
-- vector is still delivered or waiting, and the vector's timer is gone.
pub flush-accounted :
    (d : InterruptDispatcher) (v w : ℕ)
    → count_at d.pending_counts v ≢ 0
    → let d' = flush d (some v) in
      (accounted d' w ≡ accounted d w)
      × (count_at d'.pending_counts v
          ≡ (if takes d.table v then 0 else count_at d.pending_counts v))
      × (lookup v d'.pending_time_us ≡ none)
unfolding flush fire_and_forget
flush-accounted d v w h = (
  try_fire-accounted d v w h,
  try_fire-pending d v,
  ground (arith, lookup-erase v v (try_fire d v).pending_time_us),
)
