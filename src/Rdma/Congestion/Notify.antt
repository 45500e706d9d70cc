-- ===== src/Rdma/Congestion/Notify.antt =====
-- The rate limit of `generate_cnp` of src/rocev2/congestion.cpp.
use smart_nic.Base.Assoc.{lookup-insert}
use smart_nic.Rdma.Congestion.{generate_cnp, is_rate_limited, BitFields, CongestionControlManager}
use smart_nic.Base.{true, none, ℕ, is_some, ◌≡◌, sub64, ◌<◌, ◌≢◌, Bool-cases, inl, arith, inr}

-- When a notification for a queue pair is sent at time `now`, another one for it at a time `later` less than the
-- configured interval ahead is not sent and changes nothing, and the limit of every other queue pair is as it was.
pub generate_cnp_once :
    {D : Type 0} (bits : BitFields) (m : CongestionControlManager D) (qp now later : ℕ)
    → is_some (generate_cnp bits m qp now).0 ≡ true
    → sub64 later now < m.config.cnp_timer_us
    → let m' = (generate_cnp bits m qp now).1 in
      (generate_cnp bits m' qp later ≡ (none, m'))
      × ((other time : ℕ)
          → other ≢ qp
          → is_rate_limited m' other time ≡ is_rate_limited m other time)
unfolding generate_cnp is_rate_limited
generate_cnp_once {D} bits m qp now later sent soon = elim (Bool-cases m.config.enabled) [
  | inl on ↦ elim (Bool-cases (is_rate_limited m qp now)) [
    | inl limited ↦ absurd (ground arith)
    | inr free ↦
        rw (generate_cnp, on, free)
          (
            rw (is_rate_limited, lookup-insert qp qp now m.cnp_timers) (ground arith),
            λ other time ne.
                rw (is_rate_limited, lookup-insert qp other now m.cnp_timers) (ground arith),
          )
  ]
  | inr off ↦ absurd (ground arith)
]
