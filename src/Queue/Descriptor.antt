-- ===== src/Queue/Descriptor.antt =====
-- The descriptors and the completion codes of include/nic/tx_rx.h. A descriptor is copied from its bytes with
-- `memcpy`, so how its fields lie in memory is the compiler's choice: a parameter, `Layout`.
use smart_nic.Base.{ℕ, List, Bool}

pub data ChecksumMode : Type 0 where
  no_checksum layer3 layer4 : ChecksumMode

pub data CompletionCode : Type 0 where
  success buffer_too_small checksum_error no_descriptor fault mtu_exceeded invalid_mss
        too_many_segments :
      CompletionCode

unfoldable pub code_value : CompletionCode → ℕ
code_value success = 0
code_value buffer_too_small = 1
code_value checksum_error = 2
code_value no_descriptor = 3
code_value fault = 4
code_value mtu_exceeded = 5
code_value invalid_mss = 6
code_value too_many_segments = 7

pub record TxDescriptor : Type 0 where
  pub buffer_address : ℕ
  pub byte_length : ℕ
  pub checksum : ChecksumMode
  pub descriptor_index : ℕ
  pub checksum_value : ℕ
  pub checksum_offload : Bool
  pub tso_enabled : Bool
  pub gso_enabled : Bool
  pub mss : ℕ
  pub header_length : ℕ
  pub vlan_insert : Bool
  pub vlan_tag : ℕ

pub record RxDescriptor : Type 0 where
  pub buffer_address : ℕ
  pub buffer_length : ℕ
  pub checksum : ChecksumMode
  pub descriptor_index : ℕ
  pub checksum_offload : Bool
  pub vlan_strip : Bool
  pub vlan_present : Bool
  pub vlan_tag : ℕ
  pub gro_enabled : Bool

-- The sizes of the two structs and what their bytes mean.
pub record Layout : Type 0 where
  pub tx_size : ℕ
  pub rx_size : ℕ
  pub to_tx : List ℕ → TxDescriptor
  pub to_rx : List ℕ → RxDescriptor
