-- ===== src/Rdma/QueuePair/Work/States.antt =====
-- The state machine of a queue pair.
use smart_nic.Base.{
  Bool, true, false, List, [], ◌∷◌, ◌≡◌, ◌⊎◌, inl, inr, refl, Option, subst, some, add64,
  Bool-cases, none,
}
use smart_nic.Rdma.Wqe.{QpState, reset_state, init, rtr, rts, sqd, sq_err, error}
use smart_nic.Rdma.QueuePair.{RdmaQueuePair, RdmaQpModifyParams, is_valid_transition}
use smart_nic.Rdma.QueuePair.Work.{modify, modify_to, local_error, apply_params}

-- What a call of `modify` does to the state, by what it asks for.
abbrev pub Modifies : RdmaQueuePair → Option QpState → Bool × RdmaQueuePair → Type 0
Modifies q none r = (r.0 ≡ true) × (r.1.state ≡ q.state)
Modifies q (some t) r =
    ((is_valid_transition q.state t ≡ true) × (r.0 ≡ true) × (r.1.state ≡ t))
    ⊎ ((is_valid_transition q.state t ≡ false)
        × (r ≡ (
          false,
          record q { stats = record (q.stats) { local_errors = add64 (q.stats.local_errors) 1 } },
        )))

modify_to-Modifies :
    (q : RdmaQueuePair) (p : RdmaQpModifyParams) (o : Option QpState)
    → Modifies q o (modify_to q p o)
unfolding modify_to apply_params local_error
modify_to-Modifies q p none = (refl, refl)
modify_to-Modifies q p (some t) = elim (Bool-cases (is_valid_transition q.state t)) [
  | inl e ↦ rw e (inl (refl, refl, refl))
  | inr e ↦ rw e (inr (refl, refl))
]

-- `modify` asked for no state keeps the state. Asked for one it either takes an arrow of the state
-- machine and succeeds, or there is no such arrow, and it fails, counts one local error and changes
-- nothing else, no parameter either.
pub modify-Modifies :
    (q : RdmaQueuePair) (p : RdmaQpModifyParams) → Modifies q p.target_state (modify q p)
unfolding modify
modify-Modifies q p = modify_to-Modifies q p p.target_state

-- A queue pair after calls of `modify`, the latest call first.
unfoldable pub after : RdmaQueuePair → List RdmaQpModifyParams → RdmaQueuePair
after q [] = q
after q (p ∷ ps) = (modify (after q ps) p).1

-- Some point of that history had the state.
abbrev pub Visited : RdmaQueuePair → List RdmaQpModifyParams → QpState → Type 0
Visited q [] s = q.state ≡ s
Visited q (p ∷ ps) s = ((after q (p ∷ ps)).state ≡ s) ⊎ Visited q ps s

-- What a state says of its past: I, that `init` was visited, and R, that `rtr` was.
abbrev Passed : QpState → Type 0 → Type 0 → Type 0
Passed reset_state I R = Unit {0}
Passed error I R = Unit {0}
Passed init I R = I
Passed rtr I R = I × R
Passed rts I R = I × R
Passed sqd I R = I × R
Passed sq_err I R = I × R

Passed-map : {I J R S : Type 0} (s : QpState) → (I → J) → (R → S) → Passed s I R → Passed s J S
Passed-map reset_state f g h = tt
Passed-map error f g h = tt
Passed-map init f g h = f h
Passed-map rtr f g h = (f h.0, g h.1)
Passed-map rts f g h = (f h.0, g h.1)
Passed-map sqd f g h = (f h.0, g h.1)
Passed-map sq_err f g h = (f h.0, g h.1)

-- One arrow of the state machine.
Passed-arrow :
    (I R : Type 0) (s t : QpState)
    → is_valid_transition s t ≡ true
    → Passed s I R
    → Passed t ((t ≡ init) ⊎ I) ((t ≡ rtr) ⊎ R)
unfolding is_valid_transition
Passed-arrow I R s reset_state e h = tt
Passed-arrow I R s error e h = tt
Passed-arrow I R reset_state init e h = inl refl
Passed-arrow I R s init e h = inl refl
Passed-arrow I R init rtr e h = (inr h, inl refl)
Passed-arrow I R reset_state rtr e h = cc
Passed-arrow I R rtr rtr e h = cc
Passed-arrow I R rts rtr e h = cc
Passed-arrow I R sqd rtr e h = cc
Passed-arrow I R sq_err rtr e h = cc
Passed-arrow I R error rtr e h = cc
Passed-arrow I R rtr rts e h = (inr h.0, inr h.1)
Passed-arrow I R sqd rts e h = (inr h.0, inr h.1)
Passed-arrow I R rts sqd e h = (inr h.0, inr h.1)
Passed-arrow I R rts sq_err e h = (inr h.0, inr h.1)
Passed-arrow I R reset_state _ e h = cc
Passed-arrow I R init _ e h = cc
Passed-arrow I R rtr _ e h = cc
Passed-arrow I R rts _ e h = cc
Passed-arrow I R sqd _ e h = cc
Passed-arrow I R sq_err _ e h = cc
Passed-arrow I R error _ e h = cc

Passed-modify :
    (I R : Type 0) (q : RdmaQueuePair) (p : RdmaQpModifyParams) (o : Option QpState)
    → Modifies q o (modify q p)
    → Passed q.state I R
    → let s = (modify q p).1.state in Passed s ((s ≡ init) ⊎ I) ((s ≡ rtr) ⊎ R)
Passed-modify I R q p none (_, same) h = rw same (Passed-map q.state inr inr h)
Passed-modify I R q p (some t) (inl (arrow, _, now)) h = rw now (Passed-arrow I R q.state t arrow h)
Passed-modify I R q p (some t) (inr (_, e)) h = rw e (Passed-map q.state inr inr h)

after-Passed :
    (q : RdmaQueuePair) (ps : List RdmaQpModifyParams)
    → q.state ≡ reset_state
    → Passed (after q ps).state (Visited q ps init) (Visited q ps rtr)
unfolding after
after-Passed q [] e = rw e tt
after-Passed q (p ∷ ps) e =
    Passed-modify _ _ (after q ps) p p.target_state (modify-Modifies (after q ps) p)
      (after-Passed q ps e)

-- A queue pair that starts in the reset state and is ready to send after any calls of `modify`,
-- refused ones among them, has been both initialized and ready to receive before.
pub rts-Visited :
    (q : RdmaQueuePair) (ps : List RdmaQpModifyParams)
    → q.state ≡ reset_state
    → (after q ps).state ≡ rts
    → Visited q ps init × Visited q ps rtr
rts-Visited q ps e ready =
    subst (λ s. Passed s (Visited q ps init) (Visited q ps rtr)) ready (after-Passed q ps e)
