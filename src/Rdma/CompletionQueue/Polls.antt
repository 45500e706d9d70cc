-- ===== src/Rdma/CompletionQueue/Polls.antt =====
-- What polling takes from an RDMA completion queue, and what it does to the notification flag.
use smart_nic.Base.{
  ℕ, zero, suc, List, [], ◌∷◌, ◌≡◌, refl, false, take, drop, ◌<◌, ◌≤◌, length, ◌%◌, min, ◌++◌,
  arith, ◌^◌, ap, ◌∙◌, ◌+◌,
}
use smart_nic.Rdma.Wqe.{RdmaCqe}
use smart_nic.Rdma.CompletionQueue.{
  RdmaCompletionQueue, poll_loop, pop_front, poll, poll_one, should_notify, empty_list,
}

take-one : (n : ℕ) (xs : List RdmaCqe) → take 1 xs ++ take n (drop 1 xs) ≡ take (suc n) xs
take-one zero [] = refl
take-one (suc n) [] = refl
take-one n (x ∷ xs) = refl

drop-one : (n : ℕ) (xs : List RdmaCqe) → drop n (drop 1 xs) ≡ drop (suc n) xs
drop-one zero [] = refl
drop-one (suc n) [] = refl
drop-one n (x ∷ xs) = refl

length-drop_one : (n : ℕ) (xs : List RdmaCqe) → suc n ≤ length xs → n ≤ length (drop 1 xs)
length-drop_one n [] h = absurd (omega arith)
length-drop_one n (x ∷ xs) h = omega arith

poll_loop-take :
    (n : ℕ) (q : RdmaCompletionQueue)
    → let (result, q') = poll_loop n q in
      (result ≡ take n q.cqes)
      × (q'.cqes ≡ drop n q.cqes)
      × (q'.has_new_completions ≡ q.has_new_completions)
      × (q'.armed ≡ q.armed)
      × (q'.stats.cqes_polled % 2 ^ 64 ≡ (q.stats.cqes_polled + n) % 2 ^ 64)
unfolding poll_loop pop_front
poll_loop-take zero q = (refl, refl, refl, refl, omega arith)
poll_loop-take (suc n) q =
    let (result, rest, flag, bell, count) = poll_loop-take n (pop_front q) in
    (
      ap (λ r. take 1 q.cqes ++ r) result ∙ take-one n q.cqes,
      rest ∙ drop-one n q.cqes,
      flag,
      bell,
      omega (arith, count),
    )

take-min : (n : ℕ) (xs : List RdmaCqe) → take (min n (length xs)) xs ≡ take n xs
take-min zero xs = let e : min zero (length xs) ≡ zero = omega arith in rw e
take-min (suc n) [] = let e : min (suc n) 0 ≡ zero = omega arith in rw e
take-min (suc n) (x ∷ xs) =
    let both : min (suc n) (suc (length xs)) ≡ suc (min n (length xs)) = omega arith in
    rw both (ap (λ r. x ∷ r) (take-min n xs))

drop-min : (n : ℕ) (xs : List RdmaCqe) → drop (min n (length xs)) xs ≡ drop n xs
drop-min zero xs = let e : min zero (length xs) ≡ zero = omega arith in rw e
drop-min (suc n) [] = let e : min (suc n) 0 ≡ zero = omega arith in rw e
drop-min (suc n) (x ∷ xs) =
    let both : min (suc n) (suc (length xs)) ≡ suc (min n (length xs)) = omega arith in
    rw both (drop-min n xs)

-- `poll n` delivers the oldest n entries in order, or all of them if there are fewer, and leaves
-- the others; it does not touch the armed flag.
pub poll_takes :
    (q : RdmaCompletionQueue) (n : ℕ)
    → let (result, q') = poll q n in
      (result ≡ take n q.cqes) × (q'.cqes ≡ drop n q.cqes) × (q'.armed ≡ q.armed)
unfolding poll
poll_takes q n =
    let (result, rest, flag, bell, count) = poll_loop-take (min n (length q.cqes)) q in
    (result ∙ take-min n q.cqes, rest ∙ drop-min n q.cqes, bell)

drop-cons : (n : ℕ) (xs : List RdmaCqe) → n < length xs → empty_list (drop n xs) ≡ false
drop-cons n [] h = absurd (omega arith)
drop-cons zero (x ∷ xs) h = refl
drop-cons (suc n) (x ∷ xs) h = drop-cons n xs (omega arith)

poll_one-keeps :
    (q : RdmaCompletionQueue) (xs : List RdmaCqe)
    → q.cqes ≡ xs
    → 1 < length xs
    → should_notify (poll_one q).1 ≡ should_notify q
unfolding poll_one should_notify pop_front
poll_one-keeps q [] e h = absurd (omega arith)
poll_one-keeps q (x ∷ []) e h = absurd (omega arith)
poll_one-keeps q (x ∷ y ∷ r) e h = rw (e, poll_one) refl

poll-leaves :
    (q : RdmaCompletionQueue) (n : ℕ)
    → n < length q.cqes
    → empty_list (poll_loop (min n (length q.cqes)) q).1.cqes ≡ false
poll-leaves q n h =
    let (result, rest, flag, bell, count) = poll_loop-take (min n (length q.cqes)) q in
    ap empty_list (rest ∙ drop-min n q.cqes) ∙ drop-cons n q.cqes h

-- The two ways of polling treat the notification differently while completions are waiting: a
-- `poll` that leaves entries behind always silences the queue, and a `poll_one` that leaves entries
-- behind keeps the notification as it was.
pub poll-silences :
    (q : RdmaCompletionQueue) (n : ℕ)
    → n < length q.cqes
    → 1 < length q.cqes
    → (should_notify (poll q n).1 ≡ false) × (should_notify (poll_one q).1 ≡ should_notify q)
unfolding poll should_notify
poll-silences q n h k = (ground (arith, poll-leaves q n h), poll_one-keeps q q.cqes refl k)
