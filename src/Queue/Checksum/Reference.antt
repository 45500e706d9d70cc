-- ===== src/Queue/Checksum/Reference.antt =====
-- The checksum of src/checksum.cpp against one's-complement arithmetic on the whole sum.
use smart_nic.Queue.Checksum.{add_word, sum_words, compute_checksum}
use smart_nic.Base.{
  false, refl, [], ◌∷◌, ℕ, List, ◌+◌, ◌*◌, ◌-◌, ◌%◌, ◌^◌, ◌==◌, if◌then◌else◌, arith, ◌≡◌, ◌<◌,
  ◌++◌, ◌∙◌, length, ◌/◌, ap, suc, zero,
}

-- The sum of the words of a buffer, with the bytes paired from the front, the first of a pair the high one.
unfoldable pub total : List ℕ → ℕ
total [] = 0
total (last ∷ []) = last * 256
total (high ∷ low ∷ rest) = high * 256 + low + total rest

-- The representative of a number modulo 2^16 - 1 that is 0 only for 0.
unfoldable pub fold_carries : ℕ → ℕ
fold_carries n = if n == 0 then 0 else 1 + (n - 1) % 65535

abbrev pub AreBytes : List ℕ → Type 0
AreBytes [] = Unit
AreBytes (b ∷ bytes) = (b < 256) × AreBytes bytes

add_word-fold :
    (sum word more : ℕ)
    → sum < 2 ^ 16
    → word < 2 ^ 16
    → (add_word sum word < 2 ^ 16)
      × (fold_carries (add_word sum word + more) ≡ fold_carries (sum + (word + more)))
unfolding add_word fold_carries
add_word-fold sum word more s w = (ground arith, ground arith)

sum_words-fold :
    (sum : ℕ) (bytes : List ℕ)
    → sum < 2 ^ 16
    → AreBytes bytes
    → (sum_words sum bytes < 2 ^ 16) × (sum_words sum bytes ≡ fold_carries (sum + total bytes))
unfolding sum_words total fold_carries
sum_words-fold sum [] s b = (s, ground arith)
sum_words-fold sum (last ∷ []) s (b, _) =
    let word : last * 256 % 2 ^ 16 ≡ last * 256 = omega arith in
    let one = add_word-fold sum (last * 256) 0 s (omega arith) in
    rw word (one.0, ground (arith, one.1, one.0))
sum_words-fold sum (high ∷ low ∷ rest) s (h, (l, more)) =
    let word : high * 256 % 2 ^ 16 + low ≡ high * 256 + low = omega arith in
    let w = high * 256 + low in
    let one = add_word-fold sum w (total rest) s (omega arith) in
    let later = sum_words-fold (add_word sum w) rest one.0 more in
    rw word (later.0, later.1 ∙ one.1)

-- For a buffer of bytes, the checksum is 2^16 - 1 less the sum of all its words modulo 2^16 - 1, where the sum's
-- representative is 0 only when every word is 0.
pub compute_checksum-total :
    (bytes : List ℕ) → AreBytes bytes → compute_checksum bytes ≡ 65535 - fold_carries (total bytes)
unfolding compute_checksum
compute_checksum-total bytes b =
    let s = sum_words-fold 0 bytes (omega arith) b in
    let whole : 0 + total bytes ≡ total bytes = omega arith in
    let folded : sum_words 0 bytes ≡ fold_carries (total bytes) =
      s.1 ∙ ap (λ n. fold_carries n) whole in
    omega (arith, s.0, folded)

total-append :
    (bytes word : List ℕ) → length bytes % 2 ≡ 0 → total (bytes ++ word) ≡ total bytes + total word
unfolding total
total-append [] word e = omega arith
total-append (last ∷ []) word e = absurd (omega arith)
total-append (high ∷ low ∷ rest) word e = omega (arith, total-append rest word (omega arith))

AreBytes-append : (bytes word : List ℕ) → AreBytes bytes → AreBytes word → AreBytes (bytes ++ word)
AreBytes-append [] word b w = w
AreBytes-append (x ∷ bytes) word (b, more) w = (b, AreBytes-append bytes word more w)

-- The sum of a number's words and of what the number lacks.
fold_carries-complement : (n : ℕ) → fold_carries (n + (65535 - fold_carries n)) ≡ 65535
unfolding fold_carries
fold_carries-complement zero = omega arith
fold_carries-complement (suc n) =
    let rest : suc n - 1 ≡ n = omega arith in
    let whole : suc n + (65535 - (1 + n % 65535)) - 1 ≡ n + (65534 - n % 65535) = omega arith in
    let high : (n + (65534 - n % 65535)) % 65535 ≡ 65534 = omega arith in
    let positive : (suc n + (65535 - (1 + n % 65535)) == 0) ≡ false = ground arith in
    let nonzero : (suc n == 0) ≡ false = ground arith in
    let folded : fold_carries (suc n) ≡ 1 + n % 65535 = rw (fold_carries, nonzero, rest) refl in
    rw (folded, fold_carries, positive, whole, high) (omega arith)

-- A receiver accepts a buffer of an even number of bytes with its checksum behind it, the high byte first: the
-- checksum over both is 0.
pub append-checksum_zero :
    (bytes : List ℕ)
    → AreBytes bytes
    → length bytes % 2 ≡ 0
    → let c = compute_checksum bytes in compute_checksum (bytes ++ (c / 256 ∷ c % 256 ∷ [])) ≡ 0
unfolding total fold_carries
append-checksum_zero bytes b even =
    let c = compute_checksum bytes in
    let t = total bytes in
    let is_c = compute_checksum-total bytes b in
    let small : c / 256 < 256 = ground arith in
    let word : List ℕ = c / 256 ∷ c % 256 ∷ [] in
    let all =
      compute_checksum-total (bytes ++ word)
        (AreBytes-append bytes word b (small, (omega arith, record {}))) in
    let sum : total (bytes ++ word) ≡ t + c = total-append bytes word even ∙ omega arith in
    all ∙ (let full = fold_carries-complement t in rw (sum, is_c, full) (omega arith))
