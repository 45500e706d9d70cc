-- ===== src/Rdma/Engine/Clock.antt =====
-- `advance_time` of `RdmaEngine` of src/rocev2/engine.cpp.
use smart_nic.Rdma.Reliability.{check_timeouts, ReliabilityManager}
use smart_nic.Rdma.Engine.{RdmaEngine, RdmaQueuePair}
use smart_nic.Rdma.Congestion.{Floats}
use smart_nic.Base.{[], ◌∷◌, ℕ, if◌then◌else◌, not, List}
use smart_nic.Rdma.Congestion.Flow

-- The loop over the queue pairs; what is to be sent again is dropped, and the time that the timeouts see is the
-- time that elapsed.
unfoldable pub check_all : ReliabilityManager → ℕ → List (ℕ × RdmaQueuePair) → ReliabilityManager
unfolding check_timeouts
check_all m elapsed [] = m
check_all m elapsed ((key, q) ∷ later) = check_all (check_timeouts m key elapsed).1 elapsed later

module _ {D : Type 0} (fl : Floats D) where
  unfoldable pub advance_time : RdmaEngine D → ℕ → RdmaEngine D
  unfolding check_all Flow.advance_time
  advance_time e elapsed = if not e.config.enabled then e else record e {
    congestion_manager = Flow.advance_time fl e.congestion_manager elapsed;
    reliability_manager = check_all e.reliability_manager elapsed e.qps;
  }
