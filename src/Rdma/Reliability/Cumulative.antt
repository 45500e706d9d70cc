-- ===== src/Rdma/Reliability/Cumulative.antt =====
-- Cumulative acknowledgement of src/rocev2/congestion.cpp: which operations an ACK completes.
use smart_nic.Base.Assoc.{lookup-insert, lookup}
use smart_nic.Rdma.Psn.{advance_psn, mask_psn, psn_count, advance_psn-advance_psn}
use smart_nic.Base.{
  true, false, refl, some, [], ℕ, List, ◌∷◌, map, ◌<◌, ◌+◌, ◌-◌, ◌≡◌, leb, ◌≤◌, Bool-cases, inl,
  arith, inr, ◌∙◌, ◌++◌, subst, ◌≢◌,
}
use smart_nic.Rdma.Reliability.{
  covers, WqeOpcode, new_pending, PendingAck, complete_up_to, still_waiting, process_ack,
  ReliabilityManager,
}

-- A message that is posted: its packets, its work request and its opcode.
pub record Message : Type 0 where
  pub packets : ℕ
  pub wr_id : ℕ
  pub opcode : WqeOpcode

-- The operations that `post_send` tracks for messages that are sent from `base` on.
unfoldable pub posted : ℕ → List Message → List PendingAck
unfolding advance_psn new_pending
posted base [] = []
posted base (m ∷ later) =
    new_pending base (advance_psn base (m.packets - 1)) m.wr_id m.opcode 0
    ∷ posted (advance_psn base m.packets) later

unfoldable pub span : List Message → ℕ
span [] = 0
span (m ∷ later) = m.packets + span later

abbrev pub HasPackets : List Message → Type 0
HasPackets [] = Unit
HasPackets (m ∷ later) = (0 < m.packets) × HasPackets later

-- The last packet of the first message, which is sent after `o` others, comes after packet `d`.
abbrev pub EndsAfter : ℕ → ℕ → List Message → Type 0
EndsAfter d o [] = Unit
EndsAfter d o (m ∷ later) = d + 1 < o + m.packets

ids : List Message → List ℕ
ids ms = map (λ (m : Message). m.wr_id) ms

-- A number `d` packets after `base` covers an operation that ends at `base + e` exactly if `e ≤ d`, when both
-- are within half of the number space.
covers_offset :
    (base d e : ℕ) (op : PendingAck)
    → base < psn_count
    → d < 0x800000
    → e < 0x800000
    → op.end_psn ≡ advance_psn base e
    → covers (advance_psn base d) op ≡ leb e d
unfolding covers advance_psn mask_psn
covers_offset base d e op b p q r =
    rw r (elim (Bool-cases (leb e d)) [
      | inl le ↦ rw le (ground arith)
      | inr gt ↦ rw gt (ground arith)
    ])

module _ (base d : ℕ) (b : base < psn_count) (p : d < 0x800000) where
  pending : ℕ → Message → PendingAck
  unfolding advance_psn new_pending
  pending o m =
      new_pending (advance_psn base o) (advance_psn (advance_psn base o) (m.packets - 1)) m.wr_id
        m.opcode 0

  covers-pending :
      (o : ℕ) (m : Message)
      → 0 < m.packets
      → o + m.packets ≤ 0x800000
      → covers (advance_psn base d) (pending o m) ≡ leb (o + (m.packets - 1)) d
  unfolding pending new_pending
  covers-pending o m h room =
      covers_offset base d (o + (m.packets - 1)) (pending o m) b p (omega arith)
        (advance_psn-advance_psn base o (m.packets - 1))

  after_message :
      (o : ℕ) (m : Message) (later : List Message)
      → posted (advance_psn (advance_psn base o) m.packets) later
        ≡ posted (advance_psn base (o + m.packets)) later
  after_message o m later = rw (advance_psn-advance_psn base o m.packets) refl

  -- Messages that end after the acknowledged packet are left as they are.
  kept_as_posted :
      (o : ℕ) (ms : List Message)
      → HasPackets ms
      → o + span ms ≤ 0x800000
      → EndsAfter d o ms
      → complete_up_to (advance_psn base d) (posted (advance_psn base o) ms)
        ≡ (posted (advance_psn base o) ms, [])
  unfolding complete_up_to posted span new_pending pending
  kept_as_posted o [] h room at = refl
  kept_as_posted o (m ∷ later) h room at =
      let no : covers (advance_psn base d) (pending o m) ≡ false =
        covers-pending o m h.0 (omega arith) ∙ ground arith in
      rw
        (
          no,
          after_message o m later,
          kept_as_posted (o + m.packets) later h.1 (omega arith) (ends later h.1),
        )
        refl
    where
      ends : (ms : List Message) → HasPackets ms → EndsAfter d (o + m.packets) ms
      ends [] k = tt
      ends (n ∷ ms) k = omega (arith, at, k.0)

  waiting-posted : (base : ℕ) (ms : List Message) → still_waiting (posted base ms) ≡ posted base ms
  unfolding still_waiting posted new_pending
  waiting-posted base [] = refl
  waiting-posted base (m ∷ later) = rw (waiting-posted (advance_psn base m.packets) later) refl

  -- The messages that end by the acknowledged packet are completed, in order, and dropped.
  completes_before :
      (o n : ℕ) (before after : List Message)
      → n ≡ o + span before
      → HasPackets (before ++ after)
      → o + span (before ++ after) ≤ 0x800000
      → n ≤ d + 1
      → EndsAfter d n after
      → let (marked, completed) =
          complete_up_to (advance_psn base d) (posted (advance_psn base o) (before ++ after)) in
        (completed ≡ ids before) × (still_waiting marked ≡ posted (advance_psn base n) after)
  unfolding complete_up_to posted span new_pending pending ids still_waiting
  completes_before o n [] after e h room up at =
      let same : n ≡ o = omega (arith, e) in
      rw (same, kept_as_posted o after h room (subst (λ (k : ℕ). EndsAfter d k after) same at))
        (refl, waiting-posted (advance_psn base o) after)
  completes_before o n (m ∷ before) after e h room up at =
      let yes : covers (advance_psn base d) (pending o m) ≡ true =
        covers-pending o m h.0 (omega arith) ∙ ground arith in
      let rest =
        completes_before (o + m.packets) n before after (omega arith) h.1 (omega arith) up at in
      rw (yes, after_message o m (before ++ after)) (rw rest.0 refl, rest.1)

-- Messages `before` and `after` are pending as they were posted from sequence number `base` on, fewer than
-- 2^23 packets in all. An ACK of a packet that is at or behind the last one of `before` and in front of the
-- last one of the first message of `after` succeeds and completes the work requests of `before`, in the
-- order of posting; `after` stays pending as it was posted, and no other queue pair's operations change.
pub process_ack_cumulative :
    (r : ReliabilityManager) (qp base d : ℕ) (before after : List Message)
    → base < psn_count
    → d < 0x800000
    → HasPackets (before ++ after)
    → span (before ++ after) ≤ 0x800000
    → span before ≤ d + 1
    → EndsAfter d (span before) after
    → lookup qp r.pending_ops ≡ some (posted base (before ++ after))
    → let (result, r') = process_ack r qp (advance_psn base d) in
      (result.success ≡ true)
      × (result.completed_wr_ids ≡ map (λ (m : Message). m.wr_id) before)
      × (lookup qp r'.pending_ops ≡ some (posted (advance_psn base (span before)) after))
      × ((other : ℕ) → other ≢ qp → lookup other r'.pending_ops ≡ lookup other r.pending_ops)
unfolding process_ack ids
process_ack_cumulative r qp base d before after b p h room up at found =
    let start : advance_psn base 0 ≡ base = unfold advance_psn in omega arith in
    let done =
      subst
        (λ (s : ℕ).
          let (marked, completed) =
            complete_up_to (advance_psn base d) (posted s (before ++ after)) in
          (completed ≡ ids before)
          × (still_waiting marked ≡ posted (advance_psn base (span before)) after))
        start
        (completes_before base d b p 0 (span before) before after (omega arith) h (omega arith) up
          at) in
    let kept =
      still_waiting (complete_up_to (advance_psn base d) (posted base (before ++ after))).0 in
    rw (process_ack, found)
      (
        refl,
        done.0,
        rw (lookup-insert qp qp kept r.pending_ops) (ground (arith, done.1)),
        λ other ne. rw (lookup-insert qp other kept r.pending_ops) (ground arith),
      )
