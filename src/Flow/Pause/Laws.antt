-- ===== src/Flow/Pause/Laws.antt =====
-- What a sequence of calls on the manager of src/flow_control.cpp does.
use smart_nic.Base.{
  none, some, ℕ, Bool, List, ◌∷◌, ◌+◌, [], ◌<◌, true, ◌^◌, false, ◌≡◌, ◌-◌, min, arith, ◌⊎◌, inl,
  inr, subst, sym, Option,
}
use smart_nic.Flow.Frames.{PauseFrame, opcode_classic_pause}
use smart_nic.Flow.Pause.{FlowControlManager, tick, count_paused, generate_pause_frame, send_pause}

unfoldable pub ticks : FlowControlManager → List ℕ → FlowControlManager
ticks m [] = m
ticks m (q ∷ qs) = ticks (tick m q) qs

abbrev pub sum : List ℕ → ℕ
sum [] = 0
sum (q ∷ qs) = q + sum qs

-- However the time is cut into ticks, the timer falls by the time that passed and stops at zero,
-- and the time spent paused grows by what the timer fell, if it and the timer sum to less than
-- 2^64.
pub ticks-sum :
    (m : FlowControlManager) (qs : List ℕ)
    → m.stats.total_paused_time_quanta + m.pause_timer < 2 ^ 64
    → let m' = ticks m qs in
      (m'.pause_timer ≡ m.pause_timer - sum qs)
      × (m'.stats.total_paused_time_quanta
          ≡ m.stats.total_paused_time_quanta + min (sum qs) m.pause_timer)
unfolding ticks tick count_paused
ticks-sum m [] h = (omega arith, omega arith)
ticks-sum m (q ∷ qs) h =
    let one = tick-once m q h in
    let rest = ticks-sum (tick m q) qs (omega (arith, one, h)) in
    (omega (arith, one, rest, h), omega (arith, one, rest, h))
  where
    tick-once :
        (m : FlowControlManager) (q : ℕ)
        → m.stats.total_paused_time_quanta + m.pause_timer < 2 ^ 64
        → ((tick m q).pause_timer ≡ m.pause_timer - q)
          × ((tick m q).stats.total_paused_time_quanta
              ≡ m.stats.total_paused_time_quanta + min q m.pause_timer)
    tick-once m q h = ground arith

abbrev pub and_then : Option PauseFrame → List PauseFrame → List PauseFrame
and_then none fs = fs
and_then (some f) fs = f ∷ fs

-- The frames that a manager sends while it watches a queue whose depths are given.
unfoldable pub watch : FlowControlManager → List ℕ → List PauseFrame × FlowControlManager
watch m [] = ([], m)
watch m (d ∷ ds) =
    let (frame, m') = generate_pause_frame m d in
    let (frames, m'') = watch m' ds in (and_then frame frames, m'')

-- A sequence of frames in which pauses of the time `t` and resumptions take turns; the flags say
-- whether the peer is paused before and after.
pub data Alternates (t : ℕ) : Bool → Bool → List PauseFrame → Type 0 where
  quiet : {b : Bool} → Alternates t b b []
  pauses :
      {c : Bool} {fs : List PauseFrame}
      → Alternates t true c fs
      → Alternates t false c (record { opcode = opcode_classic_pause; pause_time = t } ∷ fs)
  resumes :
      {c : Bool} {fs : List PauseFrame}
      → Alternates t false c fs
      → Alternates t true c (record { opcode = opcode_classic_pause; pause_time = 0 } ∷ fs)

-- What one look at the queue can do.
generate-cases :
    (m : FlowControlManager) (d : ℕ)
    → (generate_pause_frame m d ≡ (none, m))
      ⊎ ((m.pause_sent ≡ false)
          × (generate_pause_frame m d ≡ send_pause m true m.config.default_pause_time))
      ⊎ ((m.pause_sent ≡ true) × (generate_pause_frame m d ≡ send_pause m false 0))
unfolding generate_pause_frame
generate-cases m d = ground arith

Alternates-from :
    {t : ℕ} {a b c : Bool} {fs : List PauseFrame}
    → a ≡ b
    → Alternates t b c fs
    → Alternates t a c fs
Alternates-from {t} {a} {b} {c} {fs} e h = subst (λ x. Alternates t x c fs) (sym e) h

-- Whatever the queue's depths are, a manager sends pauses of its configured time and resumptions in
-- turn, never two of a kind in a row, and it remembers at the end which of the two came last.
pub watch-Alternates :
    (m : FlowControlManager) (ds : List ℕ)
    → let (frames, m') = watch m ds in
      Alternates m.config.default_pause_time m.pause_sent m'.pause_sent frames
unfolding watch send_pause
watch-Alternates m [] = quiet
watch-Alternates m (d ∷ ds) = elim (generate-cases m d) [
  | inl e ↦ rw (e, watch) (watch-Alternates m ds)
  | inr (inl (f, e)) ↦
      rw (e, watch)
        (Alternates-from f
          (pauses (watch-Alternates (send_pause m true m.config.default_pause_time).1 ds)))
  | inr (inr (f, e)) ↦
      rw (e, watch) (Alternates-from f (resumes (watch-Alternates (send_pause m false 0).1 ds)))
]
