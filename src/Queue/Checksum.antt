-- ===== src/Queue/Checksum.antt =====
-- src/checksum.cpp: the one's-complement checksum of a buffer. The loop over the pairs of bytes, and what it does
-- with a last byte that stands alone, are one recursion over the buffer.
use smart_nic.Base.{[], ◌∷◌, ℕ, List, Bool, ◌+◌, ◌*◌, ◌-◌, ◌%◌, ◌^◌, ◌==◌, if◌then◌else◌, leb}
pub mod Reference

-- `sum += word` and the fold of its carry. The sum stays below 2^16, so the bit 0x10000 of the new one is set just
-- when it is at least 2^16.
unfoldable pub add_word : ℕ → ℕ → ℕ
add_word sum word =
    let total = sum + word in if leb 0x10000 total then total % 2 ^ 16 + 1 else total

unfoldable pub sum_words : ℕ → List ℕ → ℕ
unfolding add_word
sum_words sum [] = sum
sum_words sum (last ∷ []) = add_word sum (last * 256 % 2 ^ 16)
sum_words sum (high ∷ low ∷ rest) = sum_words (add_word sum (high * 256 % 2 ^ 16 + low)) rest

unfoldable pub compute_checksum : List ℕ → ℕ
unfolding sum_words
compute_checksum buffer = (2 ^ 32 - 1 - sum_words 0 buffer) % 2 ^ 16

unfoldable pub verify_checksum : List ℕ → ℕ → Bool
unfolding compute_checksum
verify_checksum buffer expected = compute_checksum buffer == expected
