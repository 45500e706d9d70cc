-- ===== src/Rdma/QueuePair/Reliable/Acks.antt =====
-- What an ACK completes.
use smart_nic.Base.{
  ℕ, true, false, List, [], ◌∷◌, ◌≡◌, sub32, ◌<◌, ◌++◌, add64, ◌^◌, length, arith, Bool-cases, inl,
  ap, inr, ◌≤◌, ◌+◌, ◌%◌, refl, leb, add32, ◌-◌,
}
use smart_nic.Rdma.Psn.{psn_count, advance_psn, psn_in_window}
use smart_nic.Rdma.Wqe.{ack}
use smart_nic.Rdma.QueuePair.{RdmaQueuePair, PendingOperation}
use smart_nic.Rdma.QueuePair.Reliable.{is_acked, retire, handle_ack}

-- The last sequence number of an operation.
abbrev pub last_psn : PendingOperation → ℕ
last_psn op = advance_psn op.psn (sub32 op.num_packets 1)

-- Every operation of the list is acknowledged by the given ACK.
abbrev pub AllAcked : ℕ → ℕ → List PendingOperation → Type 0
AllAcked last_acked acked [] = Unit {0}
AllAcked last_acked acked (op ∷ ops) =
    (is_acked last_acked acked op ≡ true) × AllAcked last_acked acked ops

-- What `retire` does: the operations split into a completed front, each of whose members is
-- acknowledged, and a rest that does not begin with an acknowledged one.
abbrev pub NotAckedFront : ℕ → ℕ → List PendingOperation → Type 0
NotAckedFront last_acked acked [] = Unit {0}
NotAckedFront last_acked acked (op ∷ ops) = is_acked last_acked acked op ≡ false

abbrev pub Retires : ℕ → ℕ → List PendingOperation → ℕ → List PendingOperation × ℕ → Type 0
Retires last_acked acked ops n r =
    (front : List PendingOperation) × (ops ≡ front ++ r.0)
    × AllAcked last_acked acked front
    × NotAckedFront last_acked acked r.0
    × (r.1 ≡ add64 n (length front))

retire-Retires :
    (last_acked acked : ℕ) (ops : List PendingOperation) (n : ℕ)
    → n < 2 ^ 64
    → Retires last_acked acked ops n (retire last_acked acked ops n)
unfolding retire
retire-Retires last_acked acked [] n h = ([], refl, tt, tt, omega arith)
retire-Retires last_acked acked (op ∷ ops) n h = elim (Bool-cases (is_acked last_acked acked op)) [
  | inl yes_acked ↦
      let (front, split, all, rest, count) =
        retire-Retires last_acked acked ops (add64 n 1) (omega arith) in
      rw yes_acked
        (op ∷ front, ap (λ r. op ∷ r) split, (yes_acked, all), rest, omega (arith, count))
  | inr not_acked ↦ rw not_acked ([], refl, tt, not_acked, omega arith)
]

-- How many steps of `advance_psn` lead from one sequence number to another.
abbrev pub distance : ℕ → ℕ → ℕ
distance base psn = sub32 psn base % psn_count

abbrev pub AllWithin : ℕ → ℕ → List PendingOperation → Type 0
AllWithin base steps [] = Unit {0}
AllWithin base steps (op ∷ ops) = (distance base (last_psn op) ≤ steps) × AllWithin base steps ops

abbrev pub FrontBeyond : ℕ → ℕ → List PendingOperation → Type 0
FrontBeyond base steps [] = Unit {0}
FrontBeyond base steps (op ∷ ops) = steps < distance base (last_psn op)

-- For an ACK that is not behind the last one the window test is the circular interval.
is_acked-in_order :
    (last_acked acked : ℕ) (op : PendingOperation)
    → last_acked ≤ acked
    → acked < psn_count
    → is_acked last_acked acked op ≡ leb (distance last_acked (last_psn op)) (acked - last_acked)
unfolding is_acked psn_in_window
is_acked-in_order last_acked acked op h k =
    let window : add32 (sub32 acked last_acked) 1 ≡ acked - last_acked + 1 = omega arith in
    rw window (ground arith)

module _ (last_acked acked : ℕ) (h : last_acked ≤ acked) (k : acked < psn_count) where
  AllAcked-AllWithin :
      (ops : List PendingOperation)
      → AllAcked last_acked acked ops
      → AllWithin last_acked (acked - last_acked) ops
  AllAcked-AllWithin [] a = tt
  AllAcked-AllWithin (op ∷ ops) a =
      (ground (arith, a.0, is_acked-in_order last_acked acked op h k), AllAcked-AllWithin ops a.1)

  NotAckedFront-FrontBeyond :
      (ops : List PendingOperation)
      → NotAckedFront last_acked acked ops
      → FrontBeyond last_acked (acked - last_acked) ops
  NotAckedFront-FrontBeyond [] a = tt
  NotAckedFront-FrontBeyond (op ∷ ops) a = ground (arith, is_acked-in_order last_acked acked op h k)

-- An ACK at or after the last acknowledged sequence number (both below 2^24), on a queue pair
-- that has counted fewer than 2^64 send completions, completes exactly
-- the front of the pending operations whose last packet lies between the two: the front it removes
-- lies within, the first operation it leaves lies beyond, each removed one is counted as a send
-- completion, and the ACK becomes the last acknowledged number.
pub handle_ack-in_order :
    (q : RdmaQueuePair) (acked : ℕ)
    → q.last_acked_psn ≤ acked
    → acked < psn_count
    → q.stats.send_completions < 2 ^ 64
    → let q' = handle_ack q acked ack in
      (front : List PendingOperation) × (q.pending_operations ≡ front ++ q'.pending_operations)
      × AllWithin q.last_acked_psn (acked - q.last_acked_psn) front
      × FrontBeyond q.last_acked_psn (acked - q.last_acked_psn) q'.pending_operations
      × (q'.stats.send_completions ≡ add64 (q.stats.send_completions) (length front))
      × (q'.last_acked_psn ≡ acked)
unfolding handle_ack
handle_ack-in_order q acked h k c =
    let (front, split, all, rest, count) =
      retire-Retires q.last_acked_psn acked q.pending_operations (q.stats.send_completions) c in
    (
      front,
      split,
      AllAcked-AllWithin q.last_acked_psn acked h k front all,
      NotAckedFront-FrontBeyond q.last_acked_psn acked h k _ rest,
      count,
      refl,
    )

-- Behind the last ACK the width of the window wraps, and every sequence number lies in it.
is_acked-stale :
    (last_acked acked : ℕ) (op : PendingOperation)
    → acked + 1 < last_acked
    → last_acked < psn_count
    → is_acked last_acked acked op ≡ true
unfolding is_acked psn_in_window
is_acked-stale last_acked acked op h k =
    let window : add32 (sub32 acked last_acked) 1 ≡ 2 ^ 32 + acked + 1 - last_acked = omega arith in
    rw window (ground arith)

retire-stale :
    (last_acked acked : ℕ) (ops : List PendingOperation) (n : ℕ)
    → acked + 1 < last_acked
    → last_acked < psn_count
    → (retire last_acked acked ops n).0 ≡ []
unfolding retire
retire-stale last_acked acked [] n h k = refl
retire-stale last_acked acked (op ∷ ops) n h k =
    rw (is_acked-stale last_acked acked op h k) (retire-stale last_acked acked ops (add64 n 1) h k)

-- A stale ACK, two or more below the last acknowledged sequence number (a delayed duplicate, or
-- the first ACK after the numbers wrap), completes every pending operation whatever its own
-- sequence numbers are, and sets the last acknowledged number back.
pub handle_ack-stale :
    (q : RdmaQueuePair) (acked : ℕ)
    → acked + 1 < q.last_acked_psn
    → q.last_acked_psn < psn_count
    → let q' = handle_ack q acked ack in (q'.pending_operations ≡ []) × (q'.last_acked_psn ≡ acked)
unfolding handle_ack
handle_ack-stale q acked h k =
    (retire-stale q.last_acked_psn acked q.pending_operations (q.stats.send_completions) h k, refl)
