-- ===== src/Queue/Pair/Segments.antt =====
-- The segments that src/queue_pair.cpp cuts a packet into.
use native.Mathlib.Nat.{mul-le-mul_right}
use mathlib.Core.List.{append-nil}
use smart_nic.Base.{
  true, none, some, [], ◌∷◌, ℕ, List, zero, suc, min, ◌+◌, ◌-◌, ◌||◌, ◌++◌, if◌then◌else◌, ltb, leb,
  length, slice, take, drop, slice-take, arith, ◌≤◌, ◌<◌, ◌≡◌, refl, ap, ◌∙◌, sym, drop-drop,
  drop_all, if-cases, take-drop, Bool-cases, take_front, inl, length-append, drop_front,
  length-take, inr, ◌*◌, ◌⊎◌, Option, subst,
}
use smart_nic.Queue.Descriptor.{TxDescriptor}
use smart_nic.Queue.Pair.{
  QueuePair, segment_payload, split_packet, build_segments, segmentation_enabled,
}

-- What the segments carry behind their first `n` bytes, one after the other.
unfoldable pub payloads : ℕ → List (List ℕ) → List ℕ
payloads n [] = []
payloads n (segment ∷ segments) = drop n segment ++ payloads n segments

-- Every segment has `header` as its first `n` bytes and has at most `limit` bytes.
abbrev pub AreHeaded : ℕ → ℕ → List ℕ → List (List ℕ) → Type 0
AreHeaded n limit header [] = Unit
AreHeaded n limit header (segment ∷ segments) =
    (take n segment ≡ header) × ((length segment ≤ limit) × AreHeaded n limit header segments)

-- One piece more, of at most `mss` bytes from `left`.
count_step :
    (k mss left : ℕ) → 0 < left → k * mss < (left - min mss left) + mss → suc k * mss < left + mss
count_step zero mss left some_left h = omega arith
count_step (suc j) mss left some_left h =
    let a : suc j * mss ≡ j * mss + mss = omega arith in
    let b : suc (suc j) * mss ≡ j * mss + mss + mss = omega arith in omega arith

module _ (tx : TxDescriptor) (packet header : List ℕ) (some_mss : 0 < tx.mss) where
  -- A round's piece, and where the next one starts.
  piece :
      (offset : ℕ)
      → let chunk = min tx.mss (length packet - offset) in
        (slice packet offset chunk ≡ take chunk (drop offset packet))
        × (slice packet offset chunk ++ drop (offset + chunk) packet ≡ drop offset packet)
  piece offset =
      let chunk = min tx.mss (length packet - offset) in
      let fits : min chunk (length packet - offset) ≡ chunk = omega arith in
      let is_piece : slice packet offset chunk ≡ take chunk (drop offset packet) =
        ap (λ n. slice packet offset n) (sym fits) ∙ slice-take chunk offset packet in
      let next = drop-drop offset chunk packet in
      (is_piece, rw (is_piece, sym next) (take-drop chunk (drop offset packet)))

  segment_payload-payloads :
      (rounds offset : ℕ)
      → length packet ≤ offset + rounds
      → payloads (length header) (segment_payload rounds tx header packet offset)
        ≡ drop offset packet
  unfolding segment_payload payloads
  segment_payload-payloads zero offset enough = sym (drop_all offset packet (omega arith))
  segment_payload-payloads (suc rounds) offset enough =
      let chunk = min tx.mss (length packet - offset) in
      elim (Bool-cases (ltb offset (length packet))) [
        | inl inside ↦
            let later = segment_payload-payloads rounds (offset + chunk) (ground arith) in
            let one = drop_front header (slice packet offset chunk) in
            rw (segment_payload, inside, payloads, one, later) (piece offset).1
        | inr outside ↦
            rw (segment_payload, outside, payloads) (sym (drop_all offset packet (ground arith)))
      ]

  segment_payload-AreHeaded :
      (rounds offset : ℕ)
      → AreHeaded
          (length header)
          (length header + tx.mss)
          header
          (segment_payload rounds tx header packet offset)
  unfolding segment_payload
  segment_payload-AreHeaded zero offset = record {}
  segment_payload-AreHeaded (suc rounds) offset =
      let chunk = min tx.mss (length packet - offset) in
      let bytes = slice packet offset chunk in
      if-cases (AreHeaded (length header) (length header + tx.mss) header)
        (ltb offset (length packet)) _ _
        (λ c. (
          take_front header bytes,
          (
            omega (
              arith,
              length-append header bytes,
              ap (λ (xs : List ℕ). length xs) (piece offset).0,
              length-take chunk (drop offset packet),
            ),
            segment_payload-AreHeaded rounds (offset + chunk),
          ),
        ))
        (λ c. record {})

  -- Each segment but the last one takes `mss` bytes of the packet.
  segment_payload-count :
      (rounds offset : ℕ)
      → offset ≤ length packet
      → length (segment_payload rounds tx header packet offset) * tx.mss
        < (length packet - offset) + tx.mss
  unfolding segment_payload
  segment_payload-count zero offset within = omega arith
  segment_payload-count (suc rounds) offset within =
      let chunk = min tx.mss (length packet - offset) in
      let later = length (segment_payload rounds tx header packet (offset + chunk)) in
      let h = segment_payload-count rounds (offset + chunk) (omega arith) in
      elim (Bool-cases (ltb offset (length packet))) [
        | inl inside ↦
            let left = length packet - offset in
            let some_left : 0 < left = ground arith in
            let fewer : length packet - (offset + chunk) ≡ left - chunk = omega arith in
            rw (segment_payload, inside) (count_step later tx.mss left some_left (rw fewer at h))
        | inr outside ↦ rw (segment_payload, outside) (omega arith)
      ]

-- Why a packet is not sent.
abbrev pub IsRefused : TxDescriptor → List ℕ → Type 0
IsRefused tx packet =
    (segmentation_enabled tx packet ≡ true)
    × ((9000 < tx.mss)
        ⊎ ((length packet < tx.header_length) ⊎ (64 * tx.mss < length packet - tx.header_length)))

-- What the segments of a packet are.
abbrev pub AreSegments : TxDescriptor → List ℕ → List (List ℕ) → Type 0
AreSegments tx packet segments =
    let n = min tx.header_length (length packet) in
    let limit = if segmentation_enabled tx packet then n + tx.mss else length packet in
    (payloads n segments ≡ drop n packet)
    × ((length segments ≤ 64) × AreHeaded n limit (take n packet) segments)

abbrev pub IsSplit : TxDescriptor → List ℕ → Option (List (List ℕ)) → Type 0
IsSplit tx packet none = IsRefused tx packet
IsSplit tx packet (some segments) = AreSegments tx packet segments

-- The segments, before they are counted.
split_packet-segments :
    (tx : TxDescriptor) (packet : List ℕ)
    → 0 < tx.mss
    → let n = min tx.header_length (length packet) in
      let segments = split_packet tx packet in
      (payloads n segments ≡ drop n packet)
      × (AreHeaded n (n + tx.mss) (take n packet) segments
          × ((64 < length segments) → (64 * tx.mss < length packet - n)))
unfolding split_packet payloads
split_packet-segments tx packet some_mss =
    let n = min tx.header_length (length packet) in
    let P : List (List ℕ) → Type 0 = λ segments.
      (payloads n segments ≡ drop n packet)
      × (AreHeaded n (n + tx.mss) (take n packet) segments
          × ((64 < length segments) → (64 * tx.mss < length packet - n))) in
    let header = take n packet in
    let segments = segment_payload (length packet) tx header packet n in
    let size : length header ≡ n = length-take n packet ∙ omega arith in
    let front : slice packet 0 n ≡ header =
      ap (λ k. slice packet 0 k) (omega arith) ∙ slice-take n 0 packet in
    if-cases P (leb (length packet) n) _ _
      (λ c. (
        append-nil (drop n packet),
        ((refl, (ground arith, record {})), λ many. absurd (omega arith)),
      ))
      (λ c.
        subst (λ (h : List ℕ). P (segment_payload (length packet) tx h packet n)) (sym front)
          (
            subst (λ m. payloads m segments ≡ drop n packet) size
                (segment_payload-payloads tx packet header some_mss (length packet) n
                  (omega arith)),
            (
              subst (λ m. AreHeaded m (m + tx.mss) header segments) size
                  (segment_payload-AreHeaded tx packet header some_mss (length packet) n),
              λ many.
                  let k = length segments in
                  let all =
                    segment_payload-count tx packet header some_mss (length packet) n
                      (omega arith) in
                  let more = mul-le-mul_right tx.mss many in
                  let step : 65 * tx.mss ≡ 64 * tx.mss + tx.mss = omega arith in omega arith,
            ),
          ))

-- A packet is split into its segments, or refused for a reason.
pub build_segments-IsSplit :
    (q : QueuePair) (tx : TxDescriptor) (packet : List ℕ)
    → IsSplit tx packet (build_segments q tx packet).0
unfolding build_segments payloads
build_segments-IsSplit q tx packet =
    let P : Option (List (List ℕ)) × QueuePair → Type 0 = λ r. IsSplit tx packet r.0 in
    let n = min tx.header_length (length packet) in
    elim (Bool-cases (segmentation_enabled tx packet)) [
      | inl on ↦
          let some_mss : 0 < tx.mss = unfold segmentation_enabled in ground (arith, on) in
          let segments = split_packet-segments tx packet some_mss in
          rw (build_segments, on)
            (if-cases P (ltb tx.mss 1 || ltb 9000 tx.mss) _ _
              (λ c. (on, inl (ground (arith, c, some_mss))))
              (λ c.
                if-cases P (ltb (length packet) tx.header_length) _ _
                  (λ c. (on, inr (inl (ground (arith, c)))))
                  (λ c.
                    let is_n : min tx.header_length (length packet) ≡ tx.header_length =
                      ground (arith, c) in
                    if-cases P (ltb 64 (length (split_packet tx packet))) _ _
                      (λ c. (on, inr (inr (rw is_n at segments.1.1 (ground (arith, c))))))
                      (λ c. (segments.0, (ground (arith, c), rw on segments.1.0))))))
      | inr off ↦
          rw (build_segments, off)
            (append-nil (drop n packet), (omega arith, rw off (refl, (omega arith, record {}))))
    ]
