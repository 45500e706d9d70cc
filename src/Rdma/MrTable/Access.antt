-- ===== src/Rdma/MrTable/Access.antt =====
-- What a validated access may touch.
use smart_nic.Base.{
  ℕ, Bool, true, Option, none, some, refl, ◌≡◌, ◌+◌, ◌<◌, ◌≤◌, ◌^◌, ◌-◌, sub64, arith, ◌↔◌, subst,
}
use smart_nic.Rdma.MrTable.{
  MemoryRegionTable, MemoryRegion, validate_rkey, validate_remote, validate_access, access_ok,
  permits, in_bounds, get_by_rkey,
}

-- A remote access of `size` bytes at `address` is granted for a region of the given domain.
abbrev pub Grants : ℕ → ℕ → ℕ → Bool → MemoryRegion → Type 0
Grants pd address size is_write mr =
    (mr.is_valid ≡ true)
    × (mr.pd_handle ≡ pd)
    × (mr.virtual_address ≤ address)
    × (address + size ≤ mr.virtual_address + mr.size)
    × (permits mr.access is_write true ≡ true)

in_bounds_iff :
    (mr : MemoryRegion) (address size : ℕ)
    → address + size < 2 ^ 64
    → (in_bounds mr address size ≡ true)
      ↔ ((mr.virtual_address ≤ address) × (address + size ≤ mr.virtual_address + mr.size))
unfolding in_bounds
in_bounds_iff mr address size h = (λ e. (ground arith, ground arith), λ e. ground (arith, e))

region_ok_iff :
    (t : MemoryRegionTable) (mr : MemoryRegion) (pd address size : ℕ) (is_write : Bool)
    → address + size < 2 ^ 64
    → ((validate_remote t (some mr) pd address size is_write).0 ≡ true)
      ↔ Grants pd address size is_write mr
unfolding validate_remote validate_access access_ok
region_ok_iff t mr pd address size is_write h =
    let bounds = in_bounds_iff mr address size h in
    (
      λ e. (
        ground arith,
        ground arith,
        ground (arith, bounds.0),
        ground (arith, bounds.0),
        ground arith,
      ),
      λ g. ground (arith, bounds.1 (g.2, g.3), g),
    )

validate_remote_iff :
    (t : MemoryRegionTable) (o : Option MemoryRegion) (pd address size : ℕ) (is_write : Bool)
    → address + size < 2 ^ 64
    → ((validate_remote t o pd address size is_write).0 ≡ true)
      ↔ ((mr : MemoryRegion) × (o ≡ some mr) × Grants pd address size is_write mr)
unfolding validate_remote
validate_remote_iff t none pd address size is_write h = (λ e. cc, λ (mr, e, g). cc)
validate_remote_iff t (some r) pd address size is_write h = (
  λ e. (r, refl, (region_ok_iff t r pd address size is_write h).0 e),
  λ (mr, e, g).
      let same : mr ≡ r = cc e in
      (region_ok_iff t r pd address size is_write h).1
        (subst (Grants pd address size is_write) same g),
)

-- A remote validation succeeds exactly if the key names a valid region of the given protection
-- domain that contains the whole access and permits it. The sum of the address and the
-- size is below 2^64.
pub validate_rkey_iff :
    (t : MemoryRegionTable) (rkey pd address size : ℕ) (is_write : Bool)
    → address + size < 2 ^ 64
    → ((validate_rkey t rkey pd address size is_write).0 ≡ true)
      ↔ ((mr : MemoryRegion) × (get_by_rkey t rkey ≡ some mr) × Grants pd address size is_write mr)
unfolding validate_rkey
validate_rkey_iff t rkey pd address size is_write h =
    validate_remote_iff _ (get_by_rkey t rkey) pd address size is_write h

-- Past 2^64 the bounds test is not one: a region grants an access that starts at a positive
-- offset `k`, without the address wrapping, and has 2^64 - k bytes.
pub in_bounds-wraps :
    (mr : MemoryRegion) (k : ℕ)
    → 0 < k
    → k < 2 ^ 64
    → mr.virtual_address + k < 2 ^ 64
    → in_bounds mr (mr.virtual_address + k) (2 ^ 64 - k) ≡ true
unfolding in_bounds
in_bounds-wraps mr k h l m =
    let offset : sub64 (mr.virtual_address + k) mr.virtual_address ≡ k = omega arith in
    rw offset (ground arith)

-- The table has a region under some key, of the given protection domain, whose test lets a remote read or write of
-- `n` bytes at `address` through.
abbrev pub Permitted : MemoryRegionTable → Bool → ℕ → ℕ → ℕ → Type 0
Permitted t is_write pd address n =
    (rkey : ℕ) × (mr : MemoryRegion) × (get_by_rkey t rkey ≡ some mr)
    × (mr.pd_handle ≡ pd)
    × (access_ok (some mr) address n is_write true ≡ true)

permitted_by :
    (t : MemoryRegionTable) (o : Option MemoryRegion) (pd address n : ℕ) (is_write : Bool)
    → (validate_remote t o pd address n is_write).0 ≡ true
    → (mr : MemoryRegion) × (o ≡ some mr)
      × (mr.pd_handle ≡ pd)
      × (access_ok (some mr) address n is_write true ≡ true)
unfolding validate_remote validate_access
permitted_by t none pd address n is_write e = ground (arith, e)
permitted_by t (some mr) pd address n is_write e = (mr, refl, ground (arith, e), ground (arith, e))

pub validate_rkey-Permitted :
    (t : MemoryRegionTable) (rkey pd address n : ℕ) (is_write : Bool)
    → (validate_rkey t rkey pd address n is_write).0 ≡ true
    → Permitted t is_write pd address n
unfolding validate_rkey
validate_rkey-Permitted t rkey pd address n is_write e =
    let (mr, found, domain, ok) = permitted_by _ (get_by_rkey t rkey) pd address n is_write e in
    (rkey, mr, found, domain, ok)

validate_remote-kept :
    (t : MemoryRegionTable) (o : Option MemoryRegion) (pd address n : ℕ) (is_write : Bool)
    → (validate_remote t o pd address n is_write).1.mrs_by_rkey ≡ t.mrs_by_rkey
unfolding validate_remote validate_access
validate_remote-kept t none pd address n is_write = refl
validate_remote-kept t (some mr) pd address n is_write = ground arith

pub validate_rkey-kept :
    (t : MemoryRegionTable) (rkey pd address n : ℕ) (is_write : Bool)
    → (validate_rkey t rkey pd address n is_write).1.mrs_by_rkey ≡ t.mrs_by_rkey
unfolding validate_rkey
validate_rkey-kept t rkey pd address n is_write =
    validate_remote-kept _ (get_by_rkey t rkey) pd address n is_write
