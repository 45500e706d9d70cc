-- ===== src/Memory/CompletionQueue/Refine.antt =====
-- The completion queue of the data path is a bounded FIFO of completion entries.
use smart_nic.Base.{
  ℕ, List, refl, ◌<◌, get_or, length, ◌≢◌, ◌≡◌, Option, arith, ◌++◌, ◌∷◌, [], ◌^◌, ◌+◌,
  if◌then◌else◌, ◌≤◌, length-set, add32, ap, length-replicate, ◌%◌, suc, set, get_or-set_self,
  get_or-set_ne,
}
use smart_nic.Base.Lap.{lap, length-lap, lap-step, lap-write, mod-add-next, mod-add-skip}
use smart_nic.Memory.Doorbell.{Doorbell}
use smart_nic.Memory.Fifo
use smart_nic.Memory.CompletionQueue.{
  CompletionQueue, CompletionEntry, blank, init, post_completion, poll_completion, posted, polled,
  next_index, is_full, is_empty, notify,
}

-- A queue of 2^32 entries or more is outside: its counters are 32 bits wide.
pub record IsValid (q : CompletionQueue) : Type 0 where
  pub small : q.ring_size < 2 ^ 32
  pub nonempty : 0 < q.ring_size
  pub room : length q.entries ≡ q.ring_size
  pub producer_in : q.producer_index < q.ring_size
  pub consumer_in : q.consumer_index < q.ring_size
  pub count_in : q.count ≤ q.ring_size
  pub apart : q.producer_index ≡ (q.consumer_index + q.count) % q.ring_size

abbrev pub entry_at : CompletionQueue → ℕ → CompletionEntry
entry_at q i = get_or q.entries i blank

-- The completions posted and not yet polled, oldest first.
abbrev pub contents : CompletionQueue → List CompletionEntry
contents q = lap q.ring_size (entry_at q) q.consumer_index q.count

pub length-contents : (q : CompletionQueue) → length (contents q) ≡ q.count
length-contents q = length-lap q.ring_size (entry_at q) q.consumer_index q.count

next_index-exact :
    (q : CompletionQueue) (i : ℕ)
    → IsValid q
    → i < q.ring_size
    → next_index q i ≡ (i + 1) % q.ring_size
unfolding next_index
next_index-exact q i v h =
    let unwrapped : add32 i 1 ≡ i + 1 = omega arith in rw unwrapped (omega arith)

posted-IsValid :
    (q : CompletionQueue) (x : CompletionEntry)
    → IsValid q
    → q.count < q.ring_size
    → IsValid (posted q x)
unfolding posted next_index
posted-IsValid q x v h = ground (
  arith,
  mod-add-next q.ring_size q.consumer_index q.count,
  length-set q.entries q.producer_index x,
)

polled-IsValid : (q : CompletionQueue) → IsValid q → q.count ≢ 0 → IsValid (polled q)
unfolding polled next_index
polled-IsValid q v h = ground (arith, mod-add-skip q.ring_size q.consumer_index q.count)

posted-contents :
    (q : CompletionQueue) (x : CompletionEntry)
    → IsValid q
    → q.count < q.ring_size
    → contents (posted q x) ≡ contents q ++ (x ∷ [])
unfolding posted
posted-contents q x v h =
    let grown : add32 q.count 1 ≡ suc q.count = omega arith in
    rw grown (
      lap-write q.ring_size (entry_at q) (λ i. get_or (set q.entries q.producer_index x) i blank) x
        q.producer_index (get_or-set_self q.entries q.producer_index x blank (omega arith))
        (λ i hi ne. get_or-set_ne q.entries q.producer_index i x blank ne) q.consumer_index q.count
        v.consumer_in h v.apart)

polled-contents :
    (q : CompletionQueue)
    → IsValid q
    → q.count ≢ 0
    → contents q ≡ entry_at q q.consumer_index ∷ contents (polled q)
unfolding polled
polled-contents q v h =
    rw (next_index-exact q q.consumer_index v v.consumer_in)
      (lap-step q.ring_size (entry_at q) q.consumer_index q.count h)

contents-empty : (q : CompletionQueue) → q.count ≡ 0 → contents q ≡ []
contents-empty q h = ap (lap q.ring_size (entry_at q) q.consumer_index) h

-- Posting to a valid queue keeps it valid and does to its contents what offering the entry to a
-- FIFO of `ring_size` entries does, with the same answer; the doorbell is rung with the new
-- producer index exactly when the entry is accepted.
pub post_completion_refines :
    (q : CompletionQueue) (bell : Option Doorbell) (x : CompletionEntry)
    → IsValid q
    → let (ok, q', bell') = post_completion q bell x in
      ((ok, contents q') ≡ Fifo.offer q.ring_size (contents q) x)
      × IsValid q'
      × (bell' ≡ (
          if ok
          then notify bell (record { queue_id = q.queue_id; value = q'.producer_index })
          else bell))
unfolding post_completion is_full Fifo.offer
post_completion_refines q bell x v =
    ground (arith, length-contents q, posted-contents q x v, posted-IsValid q x v)

-- Polling a valid queue keeps it valid and answers as a poll of a FIFO does.
pub poll_completion_refines :
    (q : CompletionQueue)
    → IsValid q
    → let (x, q') = poll_completion q in ((x, contents q') ≡ Fifo.poll (contents q)) × IsValid q'
unfolding poll_completion is_empty Fifo.poll
poll_completion_refines q v =
    ground (arith, contents-empty q, polled-contents q v, polled-IsValid q v)

pub init-IsValid :
    (n queue_id : ℕ)
    → 0 < n
    → n < 2 ^ 32
    → IsValid (init n queue_id) × (contents (init n queue_id) ≡ [])
unfolding init
init-IsValid n queue_id h k = (ground (arith, length-replicate n blank), refl)
