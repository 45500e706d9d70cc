-- ===== src/Rdma/PdTable.antt =====
-- include/nic/rocev2/protection_domain.h and src/rocev2/protection_domain.cpp. A protection domain
-- is its handle.
use smart_nic.Base.{
  ℕ, Bool, true, false, List, [], Option, some, none, refl, if◌then◌else◌, is_some, ◌≤◌, ◌+◌, ◌≡◌,
  leb, add64, length, ◌<◌, ◌==◌, add32, ◌^◌, arith, ◌⊎◌, Bool-cases, inl, inr,
}
use smart_nic.Base.Assoc.{
  lookup, insert, erase, lookup-insert, lookup-erase, length-insert_le, length-erase_le,
}

pub record PdTableStats : Type 0 where
  pub allocations : ℕ
  pub deallocations : ℕ
  pub allocation_failures : ℕ

pub record PdTable : Type 0 where
  pub max_pds : ℕ
  pub pds : List (ℕ × ℕ)
  pub next_handle : ℕ
  pub stats : PdTableStats

abbrev pub no_stats : PdTableStats
no_stats = record { allocations = 0; deallocations = 0; allocation_failures = 0 }

unfoldable pub create : ℕ → PdTable
create max_pds = record { max_pds = max_pds; pds = []; next_handle = 1; stats = no_stats }

-- `emplace` keeps an entry that is there.
emplace : ℕ → ℕ → List (ℕ × ℕ) → List (ℕ × ℕ)
emplace k v m = if is_some (lookup k m) then m else insert k v m

unfoldable pub allocate : PdTable → Option ℕ × PdTable
unfolding emplace
allocate t =
    if leb t.max_pds (length t.pds)
    then (
      none,
      record t {
        stats = record (t.stats) { allocation_failures = add64 (t.stats.allocation_failures) 1 };
      },
    )
    else (
      some t.next_handle,
      record t {
        pds = emplace t.next_handle t.next_handle t.pds;
        next_handle = add32 t.next_handle 1;
        stats = record (t.stats) { allocations = add64 (t.stats.allocations) 1 };
      },
    )

unfoldable pub is_valid : PdTable → ℕ → Bool
is_valid t handle = is_some (lookup handle t.pds)

unfoldable pub get : PdTable → ℕ → Option ℕ
get t handle = lookup handle t.pds

unfoldable pub deallocate : PdTable → ℕ → Bool × PdTable
unfolding is_valid
deallocate t handle =
    if is_valid t handle
    then (
      true,
      record t {
        pds = erase handle t.pds;
        stats = record (t.stats) { deallocations = add64 (t.stats.deallocations) 1 };
      },
    )
    else (false, t)

unfoldable pub reset : PdTable → PdTable
reset t = record t { pds = []; next_handle = 1; stats = no_stats }

-- Handles are given out in increasing order and none at or above the next one is in use; the table
-- is within its limit. After 2^32 allocations the counter wraps, which is outside.
pub record IsFresh (t : PdTable) : Type 0 where
  pub above : (h : ℕ) → t.next_handle ≤ h → lookup h t.pds ≡ none
  pub room : length t.pds ≤ t.max_pds

-- From a fresh table whose next handle is below 2^32 - 1, an allocation either finds the table
-- full, gives no handle and changes no entry, or gives a handle that was not valid before and
-- makes it valid, leaving every other handle as it was. The table stays fresh.
pub allocate-IsFresh :
    (t : PdTable)
    → IsFresh t
    → t.next_handle + 1 < 2 ^ 32
    → let (handle, t') = allocate t in
      IsFresh t'
      × (((handle ≡ none) × (t'.pds ≡ t.pds) × (length t.pds ≡ t.max_pds))
          ⊎ ((h : ℕ) × (handle ≡ some h)
              × (is_valid t h ≡ false)
              × ((k : ℕ) → is_valid t' k ≡ (if h == k then true else is_valid t k))))
unfolding allocate is_valid emplace
allocate-IsFresh t v small = elim (Bool-cases (leb t.max_pds (length t.pds))) [
  | inl full ↦
      rw full (record { above = v.above; room = v.room }, inl (refl, refl, ground (arith, v.room)))
  | inr free ↦
      let unused = v.above t.next_handle (omega arith) in
      rw (free, unused)
        (
          record {
            above =
                λ h k. ground (arith, lookup-insert t.next_handle h t.next_handle t.pds, v.above h);
            room = ground (arith, length-insert_le t.next_handle t.next_handle t.pds);
          },
          inr (
            t.next_handle,
            refl,
            rw unused,
            λ k. ground (arith, lookup-insert t.next_handle k t.next_handle t.pds),
          ),
        )
]

erase-IsFresh :
    (t : PdTable) (h : ℕ)
    → IsFresh t
    → (k : ℕ) → t.next_handle ≤ k
    → lookup k (erase h t.pds) ≡ none
erase-IsFresh t h v k le = ground (arith, lookup-erase h k t.pds, v.above k le)

-- In a fresh table a deallocation succeeds exactly for a valid handle, makes that handle invalid
-- and leaves every other one as it was. The table stays fresh.
pub deallocate_only :
    (t : PdTable) (h k : ℕ)
    → IsFresh t
    → let (done, t') = deallocate t h in
      IsFresh t'
      × (done ≡ is_valid t h)
      × (is_valid t' k ≡ (if h == k then false else is_valid t k))
unfolding deallocate is_valid
deallocate_only t h k v = (
  ground (arith, length-erase_le h t.pds, erase-IsFresh t h v, v),
  ground arith,
  ground (arith, lookup-erase h k t.pds),
)
