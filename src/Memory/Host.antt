-- ===== src/Memory/Host.antt =====
-- include/nic/host_memory.h and src/simple_host_memory.cpp. Bytes, addresses and sizes are numbers;
-- the two callbacks are functions of their arguments, absent where the `std::function` is empty.
pub mod Laws
use smart_nic.Base.{
  ℕ, ◌-◌, Bool, true, false, Option, none, some, List, ltb, if◌then◌else◌, length, slice, splice,
}
use smart_nic.Base.{◌==◌, replicate}

pub data HostMemoryError : Type 0 where
  ok_none out_of_bounds iommu_fault fault_injected : HostMemoryError

pub record HostMemoryResult : Type 0 where
  pub error : HostMemoryError
  pub bytes_processed : ℕ

pub record HostMemoryConfig : Type 0 where
  pub size_bytes : ℕ
  pub page_size : ℕ
  pub iommu_enabled : Bool

pub record SimpleHostMemory : Type 0 where
  pub config : HostMemoryConfig
  pub translator : Option (ℕ → ℕ → Option ℕ)
  pub fault_injector : Option (ℕ → ℕ → Bool)
  pub buffer : List ℕ

-- The view's `data` pointer is the offset of its first byte in the buffer.
pub record HostMemoryView : Type 0 where
  pub offset : ℕ
  pub size : ℕ
  pub address : ℕ

pub data Translated : Type 0 where
  denied : HostMemoryError → Translated
  viewed : HostMemoryView → Translated

unfoldable pub is_ok : HostMemoryResult → Bool
is_ok r = elim r.error [ ok_none ↦ true | _ ↦ false ]

-- The constructor of `SimpleHostMemory`.
pub init : HostMemoryConfig → Option (ℕ → ℕ → Option ℕ) → Option (ℕ → ℕ → Bool) → SimpleHostMemory
init c t f = record {
  config = if c.page_size == 0 then record c { page_size = 4096 } else c;
  translator = t;
  fault_injector = f;
  buffer = replicate c.size_bytes 0;
}

unfoldable pub injects : Option (ℕ → ℕ → Bool) → ℕ → ℕ → Bool
injects none address size = false
injects (some f) address size = f address size

unfoldable pub mapped : Option (ℕ → ℕ → Option ℕ) → ℕ → ℕ → Option ℕ
mapped none address size = some address
mapped (some f) address size = f address size

-- The two tests on the mapped address; `size - offset` cannot wrap behind the first.
unfoldable pub in_buffer : ℕ → ℕ → ℕ → Translated
in_buffer total offset size =
    if ltb total offset
    then denied out_of_bounds
    else if ltb (total - offset) size
    then denied out_of_bounds
    else viewed (record { offset = offset; size = size; address = offset })

unfoldable pub map_bounds : ℕ → ℕ → Option ℕ → Translated
unfolding in_buffer
map_bounds total size none = denied iommu_fault
map_bounds total size (some offset) = in_buffer total offset size

unfoldable pub translate_view : SimpleHostMemory → ℕ → ℕ → Translated
unfolding injects mapped map_bounds
translate_view m address size =
    if injects m.fault_injector address size
    then denied fault_injected
    else map_bounds (length m.buffer) size (mapped m.translator address size)

unfoldable pub result : Translated → HostMemoryResult
result (denied e) = record { error = e; bytes_processed = 0 }
result (viewed v) = record { error = ok_none; bytes_processed = v.size }

pub read_view : SimpleHostMemory → Translated → List ℕ → HostMemoryResult × List ℕ
unfolding result
read_view m (denied e) out = (result (denied e), out)
read_view m (viewed v) out = (result (viewed v), splice out 0 (slice m.buffer v.offset v.size))

-- `out` is the caller's buffer before the call, the list in the answer the buffer after it.
unfoldable pub read : SimpleHostMemory → ℕ → List ℕ → HostMemoryResult × List ℕ
unfolding translate_view read_view
read m address out = read_view m (translate_view m address (length out)) out

unfoldable pub write_view :
    SimpleHostMemory → Translated → List ℕ → HostMemoryResult × SimpleHostMemory
unfolding result
write_view m (denied e) bytes = (result (denied e), m)
write_view m (viewed v) bytes =
    (result (viewed v), record m { buffer = splice m.buffer v.offset bytes })

unfoldable pub write : SimpleHostMemory → ℕ → List ℕ → HostMemoryResult × SimpleHostMemory
unfolding translate_view write_view
write m address bytes = write_view m (translate_view m address (length bytes)) bytes
