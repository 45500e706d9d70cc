-- ===== src/Rdma/Opcode.antt =====
-- The opcodes of include/nic/rocev2/types.h, and what src/rocev2/packet.cpp tells from them. A byte
-- that is cast to `RdmaOpcode` may be none of the enumerators: it is `unlisted` then.
use smart_nic.Base.{
  ℕ, Bool, true, false, get_or, ◌≡◌, ◌<◌, ◌∷◌, arith, refl, [], if◌then◌else◌, ◌==◌,
}

pub data RdmaOpcode : Type 0 where
  rc_send_first rc_send_middle rc_send_last rc_send_last_imm rc_send_only rc_send_only_imm :
      RdmaOpcode
  rc_write_first rc_write_middle rc_write_last rc_write_last_imm rc_write_only rc_write_only_imm :
      RdmaOpcode
  rc_read_request rc_read_response_first rc_read_response_middle rc_read_response_last
        rc_read_response_only rc_ack cnp :
      RdmaOpcode
  unlisted : ℕ → RdmaOpcode

-- `static_cast<std::uint64_t>(opcode)`
unfoldable pub opcode_code : RdmaOpcode → ℕ
opcode_code rc_send_first = 0x00
opcode_code rc_send_middle = 0x01
opcode_code rc_send_last = 0x02
opcode_code rc_send_last_imm = 0x03
opcode_code rc_send_only = 0x04
opcode_code rc_send_only_imm = 0x05
opcode_code rc_write_first = 0x06
opcode_code rc_write_middle = 0x07
opcode_code rc_write_last = 0x08
opcode_code rc_write_last_imm = 0x09
opcode_code rc_write_only = 0x0a
opcode_code rc_write_only_imm = 0x0b
opcode_code rc_read_request = 0x0c
opcode_code rc_read_response_first = 0x0d
opcode_code rc_read_response_middle = 0x0e
opcode_code rc_read_response_last = 0x0f
opcode_code rc_read_response_only = 0x10
opcode_code rc_ack = 0x11
opcode_code cnp = 0x81
opcode_code (unlisted n) = n

-- `static_cast<RdmaOpcode>(byte)`
unfoldable pub opcode_of : ℕ → RdmaOpcode
opcode_of n =
    get_or
      (rc_send_first ∷ rc_send_middle ∷ rc_send_last ∷ rc_send_last_imm ∷ rc_send_only
        ∷ rc_send_only_imm ∷ rc_write_first ∷ rc_write_middle ∷ rc_write_last ∷ rc_write_last_imm
        ∷ rc_write_only ∷ rc_write_only_imm ∷ rc_read_request ∷ rc_read_response_first
        ∷ rc_read_response_middle ∷ rc_read_response_last ∷ rc_read_response_only ∷ rc_ack ∷ [])
      n (if n == 0x81 then cnp else unlisted n)

abbrev pub IsListed : RdmaOpcode → Type 0
IsListed (unlisted n) = ⊥
IsListed _ = Unit

unfoldable pub opcode_is_first : RdmaOpcode → Bool
opcode_is_first rc_send_first = true
opcode_is_first rc_write_first = true
opcode_is_first rc_read_response_first = true
opcode_is_first _ = false

unfoldable pub opcode_is_middle : RdmaOpcode → Bool
opcode_is_middle rc_send_middle = true
opcode_is_middle rc_write_middle = true
opcode_is_middle rc_read_response_middle = true
opcode_is_middle _ = false

unfoldable pub opcode_is_last : RdmaOpcode → Bool
opcode_is_last rc_send_last = true
opcode_is_last rc_send_last_imm = true
opcode_is_last rc_write_last = true
opcode_is_last rc_write_last_imm = true
opcode_is_last rc_read_response_last = true
opcode_is_last _ = false

unfoldable pub opcode_is_only : RdmaOpcode → Bool
opcode_is_only rc_send_only = true
opcode_is_only rc_send_only_imm = true
opcode_is_only rc_write_only = true
opcode_is_only rc_write_only_imm = true
opcode_is_only rc_read_response_only = true
opcode_is_only _ = false

unfoldable pub opcode_has_payload : RdmaOpcode → Bool
opcode_has_payload rc_ack = false
opcode_has_payload rc_read_request = false
opcode_has_payload cnp = false
opcode_has_payload _ = true

unfoldable pub opcode_is_read_response : RdmaOpcode → Bool
opcode_is_read_response rc_read_response_first = true
opcode_is_read_response rc_read_response_middle = true
opcode_is_read_response rc_read_response_last = true
opcode_is_read_response rc_read_response_only = true
opcode_is_read_response _ = false

-- The headers that a builder writes.
unfoldable pub needs_reth : RdmaOpcode → Bool
needs_reth rc_write_first = true
needs_reth rc_write_only = true
needs_reth rc_write_only_imm = true
needs_reth rc_read_request = true
needs_reth _ = false

unfoldable pub needs_aeth : RdmaOpcode → Bool
needs_aeth rc_ack = true
needs_aeth rc_read_response_first = true
needs_aeth rc_read_response_last = true
needs_aeth rc_read_response_only = true
needs_aeth _ = false

unfoldable pub has_immediate_variant : RdmaOpcode → Bool
has_immediate_variant rc_send_last_imm = true
has_immediate_variant rc_send_only_imm = true
has_immediate_variant rc_write_last_imm = true
has_immediate_variant rc_write_only_imm = true
has_immediate_variant _ = false

pub opcode_of-opcode_code : (o : RdmaOpcode) → IsListed o → opcode_of (opcode_code o) ≡ o
unfolding opcode_of opcode_code
opcode_of-opcode_code (unlisted n) h = absurd h
opcode_of-opcode_code rc_send_first h = refl
opcode_of-opcode_code _ h = refl

pub opcode_code-lt : (o : RdmaOpcode) → IsListed o → opcode_code o < 256
unfolding opcode_code
opcode_code-lt (unlisted n) h = absurd h
opcode_code-lt rc_send_first h = omega arith
opcode_code-lt _ h = omega arith
