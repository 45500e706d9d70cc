-- ===== src/Rdma/Psn.antt =====
-- Packet sequence numbers: `advance_psn` and `psn_in_window` of include/nic/rocev2/types.h.
-- `x & kMaxPsn` is `x % 2 ^ 24`.
use smart_nic.Base.{ℕ, ◌+◌, ◌%◌, ◌^◌, ◌<◌, ◌≡◌, Bool, ltb, arith, add32, sub32}

abbrev pub psn_count : ℕ
psn_count = 2 ^ 24

unfoldable pub mask_psn : ℕ → ℕ
mask_psn x = x % psn_count

unfoldable pub advance_psn : ℕ → ℕ → ℕ
advance_psn psn increment = add32 psn increment % psn_count

unfoldable pub psn_in_window : ℕ → ℕ → ℕ → Bool
psn_in_window psn base window_size = ltb (sub32 psn base % psn_count) window_size

pub advance_psn-lt : (psn k : ℕ) → advance_psn psn k < psn_count
unfolding advance_psn
advance_psn-lt psn k = omega arith

pub advance_psn-advance_psn :
    (psn j k : ℕ) → advance_psn (advance_psn psn j) k ≡ advance_psn psn (j + k)
unfolding advance_psn
advance_psn-advance_psn psn j k = omega arith

-- The window is the circular interval that starts at `base`: a sequence number lies in it exactly
-- when it is fewer than `window_size` steps of `advance_psn` ahead of `base`.
pub in_window-advance :
    (base k window : ℕ)
    → base < psn_count
    → k < psn_count
    → psn_in_window (advance_psn base k) base window ≡ ltb k window
unfolding psn_in_window advance_psn
in_window-advance base k window h l =
    let steps : sub32 (add32 base k % psn_count) base % psn_count ≡ k = omega arith in rw steps
