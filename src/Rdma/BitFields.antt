-- ===== src/Rdma/BitFields.antt =====
-- What src/rocev2 uses of the bit_fields library, which is not part of the repository: a record of its
-- operations, and its documented behaviour. A format is the list of the widths of its fields, and the
-- value of a field is got by its place in the format, where the source names it.
use smart_nic.Base.{ℕ, List, ◌∷◌, ◌≡◌, ◌+◌, ◌*◌, length, [], ◌<◌, ◌++◌, ◌^◌}

pub record BitFields : Type 0 where
  -- `NetworkBitWriter::serialize` into a buffer of the format's size: the bytes, most significant
  -- bit first.
  pub serialize : List ℕ → List ℕ → List ℕ
  -- `NetworkBitReader::deserialize`: the values of the fields, from the front of the bytes.
  pub deserialize : List ℕ → List ℕ → List ℕ
  -- `write_aligned<std::uint32_t>` and `read_aligned<std::uint32_t>`.
  pub write_aligned : ℕ → List ℕ
  pub read_aligned : List ℕ → ℕ

abbrev pub Fits : List ℕ → List ℕ → Type 0
Fits [] [] = Unit
Fits (w ∷ ws) (v ∷ vs) = (v < 2 ^ w) × Fits ws vs
Fits _ _ = ⊥

abbrev pub total_bits : List ℕ → ℕ
total_bits [] = 0
total_bits (w ∷ ws) = w + total_bits ws

-- What is written is read back, and takes the format's size.
pub record IsLawful (b : BitFields) : Type 0 where
  pub size :
      (ws vs : List ℕ) (n : ℕ) → Fits ws vs → total_bits ws ≡ 8 * n → length (b.serialize ws vs) ≡ n
  pub read_back :
      (ws vs rest : List ℕ) (n : ℕ)
      → Fits ws vs
      → total_bits ws ≡ 8 * n
      → b.deserialize ws (b.serialize ws vs ++ rest) ≡ vs
  pub aligned_size : (x : ℕ) → length (b.write_aligned x) ≡ 4
  pub aligned_back : (x : ℕ) → x < 2 ^ 32 → b.read_aligned (b.write_aligned x) ≡ x
