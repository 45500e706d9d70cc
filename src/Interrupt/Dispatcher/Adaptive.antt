-- ===== src/Interrupt/Dispatcher/Adaptive.antt =====
-- The adaptive thresholds of src/interrupt_dispatcher.cpp.
use smart_nic.Base.{ℕ, List, ◌<◌, ◌∷◌, ◌^◌, ◌≤◌, [], arith}
use smart_nic.Interrupt.Dispatcher.{AdaptiveConfig, AdaptiveState, sampled, adjusted}

-- The state of a vector after firings of the given batch sizes.
unfoldable pub samples : AdaptiveConfig → AdaptiveState → List ℕ → AdaptiveState
samples c s [] = s
samples c s (b ∷ bs) = samples c (sampled c s b) bs

sampled-between :
    (c : AdaptiveConfig) (s : AdaptiveState) (b : ℕ)
    → c.max_threshold < 2 ^ 32
    → c.min_threshold ≤ s.current_threshold
    → s.current_threshold ≤ c.max_threshold
    → (c.min_threshold ≤ (sampled c s b).current_threshold)
      × ((sampled c s b).current_threshold ≤ c.max_threshold)
unfolding sampled adjusted
sampled-between c s b h lo hi = ground arith

-- A threshold that starts between the configured minimum and maximum, of 32 bits, stays there
-- whatever the batches are.
pub samples-between :
    (c : AdaptiveConfig) (s : AdaptiveState) (bs : List ℕ)
    → c.max_threshold < 2 ^ 32
    → c.min_threshold ≤ s.current_threshold
    → s.current_threshold ≤ c.max_threshold
    → (c.min_threshold ≤ (samples c s bs).current_threshold)
      × ((samples c s bs).current_threshold ≤ c.max_threshold)
unfolding samples
samples-between c s [] h lo hi = (lo, hi)
samples-between c s (b ∷ bs) h lo hi =
    let one = sampled-between c s b h lo hi in samples-between c (sampled c s b) bs h one.0 one.1
