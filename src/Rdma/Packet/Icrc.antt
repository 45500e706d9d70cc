-- ===== src/Rdma/Packet/Icrc.antt =====
-- `IcrcCalculator` of include/nic/rocev2/packet.h and src/rocev2/packet.cpp.
use smart_nic.Base.{
  ℕ, Bool, if◌then◌else◌, List, ◌∷◌, ◌%◌, ◌==◌, [], ltb, ◌/◌, ◌^◌, zero, ◌≡◌, length, false, refl,
  ◌-◌, slice, ◌<◌, arith,
}
use smart_nic.Rdma.BitFields.{BitFields}
use Prim.Native.Nat.{bit_xor, suc}

-- One step of the loop that makes an entry of `kCrc32cTable`.
unfoldable pub table_step : ℕ → ℕ
table_step crc = if crc % 2 == 1 then bit_xor (crc / 2) 0x82f63b78 else crc / 2

unfoldable pub table_entry : ℕ → ℕ → ℕ
unfolding table_step
table_entry zero crc = crc
table_entry (suc steps) crc = table_entry steps (table_step crc)

-- The table is indexed by a byte.
unfoldable pub update_crc : ℕ → ℕ → ℕ
unfolding table_entry
update_crc crc byte = bit_xor (table_entry 8 (bit_xor crc byte % 256)) (crc / 256) % 2 ^ 32

unfoldable pub update_all : ℕ → List ℕ → ℕ
unfolding update_crc
update_all crc [] = crc
update_all crc (b ∷ bs) = update_all (update_crc crc b) bs

unfoldable pub calculate : List ℕ → ℕ
unfolding update_all
calculate bytes = bit_xor (update_all 0xffffffff bytes) 0xffffffff % 2 ^ 32

abbrev pub icrc_size : ℕ
icrc_size = 4

pub calculate-lt : (bytes : List ℕ) → calculate bytes < 2 ^ 32
unfolding calculate
calculate-lt bytes = omega arith

-- The check value of CRC-32C, for the text "123456789".
calculate_check : calculate (49 ∷ 50 ∷ 51 ∷ 52 ∷ 53 ∷ 54 ∷ 55 ∷ 56 ∷ 57 ∷ []) ≡ 0xe3069283
unfolding calculate
calculate_check = refl

module _ (bits : BitFields) where
  unfoldable pub verify : List ℕ → Bool
  unfolding calculate
  verify bytes =
      if ltb (length bytes) icrc_size
      then false
      else let front = length bytes - icrc_size in
        calculate (slice bytes 0 front) == bits.read_aligned (slice bytes front icrc_size)
