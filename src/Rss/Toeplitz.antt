-- ===== src/Rss/Toeplitz.antt =====
-- The hash of src/rss.cpp against the Toeplitz hash of two sequences of bits.
use smart_nic.Base.{
  true, false, [], ◌∷◌, ℕ, List, Bool, zero, suc, ◌+◌, ◌-◌, ◌*◌, ◌/◌, ◌%◌, ◌^◌, ◌<◌, ◌≤◌, ◌≡◌, refl,
  sym, ap, ◌∙◌, arith, if◌then◌else◌, ◌==◌, length, get_or,
}
use Prim.Native.Nat.{bit_xor}
use native.Mathlib.Nat.{zero-div, pow-suc, pow-le-pow_right}
use smart_nic.Rss.{bit_at, key_segment, hash_bits, toeplitz_hash}

-- The bits of a buffer, each byte from its high bit on.
unfoldable pub bits_of : List ℕ → List Bool
bits_of [] = []
bits_of (b ∷ bytes) =
    (b / 128 % 2 == 1)
    ∷ (b / 64 % 2 == 1)
    ∷ (b / 32 % 2 == 1)
    ∷ (b / 16 % 2 == 1)
    ∷ (b / 8 % 2 == 1)
    ∷ (b / 4 % 2 == 1)
    ∷ (b / 2 % 2 == 1)
    ∷ (b % 2 == 1)
    ∷ bits_of bytes

-- The key's bits, repeated without end.
unfoldable pub repeated : List ℕ → ℕ → Bool
repeated key i = get_or (bits_of key) (i % length (bits_of key)) false

-- The number whose `n` bits are those of `stream` from `start` on.
unfoldable pub window : (ℕ → Bool) → ℕ → ℕ → ℕ
window stream start zero = 0
window stream start (suc n) = (if stream start then 2 ^ n else 0) + window stream (suc start) n

-- Each bit of the data that is set adds the 32 bits of the key from its own position on.
unfoldable pub toeplitz : (ℕ → Bool) → ℕ → ℕ → List Bool → ℕ
toeplitz stream start sum [] = sum
toeplitz stream start sum (bit ∷ bits) =
    toeplitz stream (suc start) (if bit then bit_xor sum (window stream start 32) else sum) bits

length-bits_of : (bytes : List ℕ) → length (bits_of bytes) ≡ length bytes * 8
unfolding bits_of
length-bits_of [] = refl
length-bits_of (b ∷ bytes) = omega (arith, length-bits_of bytes)

bits_of-bit_at : (bytes : List ℕ) (i : ℕ) → get_or (bits_of bytes) i false ≡ bit_at bytes i
unfolding bits_of bit_at
bits_of-bit_at [] i = rw (zero-div (2 ^ (7 - i % 8))) refl
bits_of-bit_at (b ∷ bytes) zero = refl
bits_of-bit_at (b ∷ bytes) (suc zero) = refl
bits_of-bit_at (b ∷ bytes) (suc (suc zero)) = refl
bits_of-bit_at (b ∷ bytes) (suc (suc (suc zero))) = refl
bits_of-bit_at (b ∷ bytes) (suc (suc (suc (suc zero)))) = refl
bits_of-bit_at (b ∷ bytes) (suc (suc (suc (suc (suc zero))))) = refl
bits_of-bit_at (b ∷ bytes) (suc (suc (suc (suc (suc (suc zero)))))) = refl
bits_of-bit_at (b ∷ bytes) (suc (suc (suc (suc (suc (suc (suc zero))))))) =
    let whole : b / 1 ≡ b = omega arith in rw whole refl
bits_of-bit_at (b ∷ bytes) (suc (suc (suc (suc (suc (suc (suc (suc i)))))))) =
    let next : suc (suc (suc (suc (suc (suc (suc (suc i))))))) / 8 ≡ suc (i / 8) = omega arith in
    let same : suc (suc (suc (suc (suc (suc (suc (suc i))))))) % 8 ≡ i % 8 = omega arith in
    bits_of-bit_at bytes i ∙ (rw (next, same) refl)

repeated-bit_at : (key : List ℕ) (i : ℕ) → repeated key i ≡ bit_at key (i % (length key * 8))
unfolding repeated
repeated-bit_at key i = rw (length-bits_of key) (bits_of-bit_at key (i % (length key * 8)))

-- One bit more behind the number `s`.
append_bit :
    (bit : Bool) (s p w : ℕ)
    → (s * 2 + (if bit then 1 else 0)) * p + w ≡ s * (p * 2) + ((if bit then p else 0) + w)
append_bit true s p w = omega arith
append_bit false s p w = omega arith

key_segment-window :
    (key : List ℕ) (bit segment k n : ℕ)
    → k + n ≡ 32
    → segment < 2 ^ k
    → key_segment key bit segment n ≡ segment * 2 ^ n + window (repeated key) (bit + k) n
unfolding key_segment window
key_segment-window key bit segment k zero e h = omega arith
key_segment-window key bit segment k (suc n) e h =
    let at : 32 - suc n ≡ k = omega arith in
    let same = repeated-bit_at key (bit + k) in
    let one : ℕ = if bit_at key ((bit + k) % (length key * 8)) then 1 else 0 in
    let grown : 2 ^ suc k ≡ 2 ^ k * 2 = pow-suc 2 k in
    let two : 0 < 2 = omega arith in
    let low : suc k ≤ 32 = omega arith in
    let top : 2 ^ suc k ≤ 2 ^ 32 = pow-le-pow_right two low in
    let fits : segment * 2 % 2 ^ 32 ≡ segment * 2 = omega (arith, h, top, grown) in
    let small : segment * 2 + one < 2 ^ suc k = ground (arith, h, grown) in
    let rest = key_segment-window key bit (segment * 2 + one) (suc k) n (omega arith) small in
    let next : bit + suc k ≡ suc (bit + k) = omega arith in
    let double : 2 ^ suc n ≡ 2 ^ n * 2 = pow-suc 2 n in
    rw (at, fits, rest, next, double, same)
      (append_bit (bit_at key ((bit + k) % (length key * 8))) segment (2 ^ n)
        (window (repeated key) (suc (bit + k)) n))

hash_bits-toeplitz :
    (key bytes : List ℕ) (start sum : ℕ) (bits : List Bool)
    → start + length bits ≡ length bytes * 8
    → ((i : ℕ) → i < length bits → get_or bits i false ≡ bit_at bytes (start + i))
    → hash_bits key bytes sum (length bits) ≡ toeplitz (repeated key) start sum bits
unfolding hash_bits toeplitz
hash_bits-toeplitz key bytes start sum [] e h = refl
hash_bits-toeplitz key bytes start sum (bit ∷ bits) e h =
    let at : length bytes * 8 - suc (length bits) ≡ start = omega arith in
    let now : bit ≡ bit_at bytes start = h 0 (omega arith) ∙ ap (bit_at bytes) (omega arith) in
    let segment : key_segment key start 0 32 ≡ window (repeated key) start 32 =
      key_segment-window key start 0 0 32 refl (omega arith)
      ∙ (let same : start + 0 ≡ start = omega arith in rw same (omega arith)) in
    rw (hash_bits, at, ← now, segment)
      (hash_bits-toeplitz key bytes (suc start)
        (if bit then bit_xor sum (window (repeated key) start 32) else sum) bits (omega arith)
        (λ i below. h (suc i) (omega arith) ∙ ap (bit_at bytes) (omega arith)))

-- For a key that is not empty, the hash is the Toeplitz hash: the exclusive or, over the bits of the buffer that
-- are set, of the 32 bits from the bit's position on of the key's bits, repeated without end.
pub toeplitz_hash-toeplitz :
    (key bytes : List ℕ)
    → 0 < length key
    → toeplitz_hash key bytes ≡ toeplitz (repeated key) 0 0 (bits_of bytes)
unfolding toeplitz_hash toeplitz bits_of
toeplitz_hash-toeplitz key [] some_key =
    let some_bits : (length key == 0) ≡ false = ground arith in rw some_bits refl
toeplitz_hash-toeplitz key (b ∷ bytes) some_key =
    let some_bits : (length key == 0) ≡ false = ground arith in
    let some_data : (suc (length bytes) == 0) ≡ false = ground arith in
    let n = length-bits_of (b ∷ bytes) in
    let all =
      hash_bits-toeplitz key (b ∷ bytes) 0 0 (bits_of (b ∷ bytes)) (omega (arith, n))
        (λ i below. bits_of-bit_at (b ∷ bytes) i ∙ ap (bit_at (b ∷ bytes)) (omega arith)) in
    rw (some_bits, some_data) (ap (hash_bits key (b ∷ bytes) 0) (sym n) ∙ all)
