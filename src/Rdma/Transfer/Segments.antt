-- ===== src/Rdma/Transfer/Segments.antt =====
-- Data cut into the payloads of the packets of a message.
use smart_nic.Rdma.QueuePair.Reliable.{mtu_bytes}
use native.Mathlib.Nat.{div-le_self, div-mul-le_self, lt-div-mul-add}
use smart_nic.Rdma.Transfer.{calculate_packet_count, RdmaQueuePair}
use smart_nic.Base.{
  ℕ, List, [], ◌∷◌, suc, ◌++◌, take, drop, zero, length, ◌≡◌, arith, ◌≤◌, ◌<◌, ◌-◌, ◌+◌, ◌*◌, ◌^◌,
  refl, length-drop, ◌/◌, take-drop, sub32, add32,
}

unfoldable pub chunks : ℕ → ℕ → List ℕ → List (List ℕ)
chunks mtu zero bytes = []
chunks mtu (suc n) bytes = take mtu bytes ∷ chunks mtu n (drop mtu bytes)

unfoldable pub join : List (List ℕ) → List ℕ
join [] = []
join (xs ∷ rest) = xs ++ join rest

pub join-chunks : (mtu n : ℕ) (xs : List ℕ) → length xs ≤ n * mtu → join (chunks mtu n xs) ≡ xs
unfolding join chunks
join-chunks mtu zero [] h = refl
join-chunks mtu zero (x ∷ xs) h = absurd (omega (arith, h))
join-chunks mtu (suc n) xs h =
    rw (join-chunks mtu n (drop mtu xs) (omega (arith, h, length-drop mtu xs))) (take-drop mtu xs)

positive : (n mtu x : ℕ) → x < n * mtu + mtu → mtu ≤ x → 0 < n
positive zero mtu x above h = absurd (omega (arith, above, h))
positive (suc n) mtu x above h = omega arith

-- So many packets are just enough, where the sum in 32-bit arithmetic does not wrap.
pub packet_count-enough :
    (total mtu : ℕ)
    → 0 < mtu
    → 0 < total
    → total + mtu < 2 ^ 32
    → let n = calculate_packet_count total mtu in
      (total ≤ n * mtu) × (n * mtu < total + mtu) × (0 < n)
unfolding calculate_packet_count
packet_count-enough total mtu p t h =
    let n = (total + mtu - 1) / mtu in
    let below : n * mtu ≤ total + mtu - 1 = div-mul-le_self (total + mtu - 1) mtu in
    let above : total + mtu - 1 < n * mtu + mtu = lt-div-mul-add p in
    let whole : (total ≤ n * mtu) × (n * mtu < total + mtu) × (0 < n) = (
      omega (arith, below, above),
      omega (arith, below, above),
      positive n _ _ above (omega arith),
    ) in
    ground (arith, whole)

pub mtu_bytes-pos : (q : RdmaQueuePair) → 0 < mtu_bytes q
unfolding mtu_bytes
mtu_bytes-pos q = ground arith

pub packet_count-lt : (total mtu : ℕ) → calculate_packet_count total mtu < 2 ^ 32
unfolding calculate_packet_count
packet_count-lt total mtu =
    let below = div-le_self (sub32 (add32 total mtu) 1) mtu in ground (arith, below)
