-- ===== src/Rdma/MrTable.antt =====
-- include/nic/rocev2/memory_region.h and src/rocev2/memory_region.cpp. The table by remote key
-- points to the regions that the table by local key owns; a region never changes once registered,
-- so here it holds the region itself. `stats_` is mutable, so a validation gives the table back.
pub mod Inv
pub mod Access
use smart_nic.Base.{
  ℕ, Bool, true, false, Option, none, some, List, [], ◌∷◌, add32, if◌then◌else◌, add64, is_some,
  leb, ltb, not, length, sub64, ◌==◌,
}
use smart_nic.Base.Assoc.{lookup, insert, erase}

pub record AccessFlags : Type 0 where
  pub local_read : Bool
  pub local_write : Bool
  pub remote_read : Bool
  pub remote_write : Bool
  pub zero_based : Bool

pub record MemoryRegion : Type 0 where
  pub lkey : ℕ
  pub rkey : ℕ
  pub virtual_address : ℕ
  pub size : ℕ
  pub pd_handle : ℕ
  pub access : AccessFlags
  pub is_valid : Bool

pub record MrTableStats : Type 0 where
  pub registrations : ℕ
  pub deregistrations : ℕ
  pub lkey_validations : ℕ
  pub rkey_validations : ℕ
  pub access_errors : ℕ
  pub registration_failures : ℕ

pub record MemoryRegionTable : Type 0 where
  pub max_mrs : ℕ
  pub mrs_by_lkey : List (ℕ × MemoryRegion)
  pub mrs_by_rkey : List (ℕ × MemoryRegion)
  pub next_key : ℕ
  pub stats : MrTableStats

abbrev pub no_stats : MrTableStats
no_stats = record {
  registrations = 0;
  deregistrations = 0;
  lkey_validations = 0;
  rkey_validations = 0;
  access_errors = 0;
  registration_failures = 0;
}

unfoldable pub create : ℕ → MemoryRegionTable
create max_mrs = record {
  max_mrs = max_mrs;
  mrs_by_lkey = [];
  mrs_by_rkey = [];
  next_key = 0x100;
  stats = no_stats;
}

unfoldable pub generate_key : MemoryRegionTable → ℕ × MemoryRegionTable
generate_key t = (t.next_key, record t { next_key = add32 t.next_key 1 })

-- `emplace` keeps an entry that is there.
unfoldable pub emplace : ℕ → MemoryRegion → List (ℕ × MemoryRegion) → List (ℕ × MemoryRegion)
emplace k r m = if is_some (lookup k m) then m else insert k r m

fail_registration : MemoryRegionTable → MemoryRegionTable
fail_registration t = record t {
  stats = record (t.stats) { registration_failures = add64 (t.stats.registration_failures) 1 };
}

unfoldable pub register_mr :
    MemoryRegionTable → ℕ → ℕ → ℕ → AccessFlags → Option ℕ × MemoryRegionTable
unfolding fail_registration generate_key emplace
register_mr t pd_handle virtual_address size access =
    if leb t.max_mrs (length t.mrs_by_lkey)
    then (none, fail_registration t)
    else if size == 0
    then (none, fail_registration t)
    else let (lkey, t₁) = generate_key t in
      let (rkey, t₂) = generate_key t₁ in
      let mr : MemoryRegion = record {
        lkey = lkey;
        rkey = rkey;
        virtual_address = virtual_address;
        size = size;
        pd_handle = pd_handle;
        access = access;
        is_valid = true;
      } in
      (
        some lkey,
        record t₂ {
          mrs_by_lkey = emplace lkey mr t.mrs_by_lkey;
          mrs_by_rkey = emplace rkey mr t.mrs_by_rkey;
          stats = record (t.stats) { registrations = add64 (t.stats.registrations) 1 };
        },
      )

unfoldable pub get_by_lkey : MemoryRegionTable → ℕ → Option MemoryRegion
get_by_lkey t lkey = lookup lkey t.mrs_by_lkey

unfoldable pub get_by_rkey : MemoryRegionTable → ℕ → Option MemoryRegion
get_by_rkey t rkey = lookup rkey t.mrs_by_rkey

deregister_found : MemoryRegionTable → ℕ → Option MemoryRegion → Bool × MemoryRegionTable
deregister_found t lkey none = (false, t)
deregister_found t lkey (some mr) = (
  true,
  record t {
    mrs_by_rkey = erase mr.rkey t.mrs_by_rkey;
    mrs_by_lkey = erase lkey t.mrs_by_lkey;
    stats = record (t.stats) { deregistrations = add64 (t.stats.deregistrations) 1 };
  },
)

unfoldable pub deregister_mr : MemoryRegionTable → ℕ → Bool × MemoryRegionTable
unfolding deregister_found
deregister_mr t lkey = deregister_found t lkey (lookup lkey t.mrs_by_lkey)

-- The permission that an access wants.
unfoldable pub permits : AccessFlags → Bool → Bool → Bool
permits a is_write is_remote =
    if is_remote
    then if is_write then a.remote_write else a.remote_read
    else if is_write
    then a.local_write
    else a.local_read

-- The bounds test: the offset of the access, and where it ends, in 64-bit arithmetic.
unfoldable pub in_bounds : MemoryRegion → ℕ → ℕ → Bool
in_bounds mr address size =
    if ltb address mr.virtual_address
    then false
    else not (ltb mr.size (add64 (sub64 address mr.virtual_address) size))

-- The tests of `validate_access` in their order; every refusal is counted by the caller.
unfoldable pub access_ok : Option MemoryRegion → ℕ → ℕ → Bool → Bool → Bool
unfolding permits in_bounds
access_ok none address size is_write is_remote = false
access_ok (some mr) address size is_write is_remote =
    if not mr.is_valid
    then false
    else if not (in_bounds mr address size)
    then false
    else permits mr.access is_write is_remote

access_error : MemoryRegionTable → MemoryRegionTable
access_error t = record t {
  stats = record (t.stats) { access_errors = add64 (t.stats.access_errors) 1 };
}

unfoldable pub validate_access :
    MemoryRegionTable → Option MemoryRegion → ℕ → ℕ → Bool → Bool → Bool × MemoryRegionTable
unfolding access_ok access_error
validate_access t mr address size is_write is_remote =
    if access_ok mr address size is_write is_remote then (true, t) else (false, access_error t)

unfoldable pub validate_lkey : MemoryRegionTable → ℕ → ℕ → ℕ → Bool → Bool × MemoryRegionTable
unfolding validate_access get_by_lkey
validate_lkey t lkey address size is_write =
    let t' = record t {
      stats = record (t.stats) { lkey_validations = add64 (t.stats.lkey_validations) 1 };
    } in
    validate_access t' (get_by_lkey t lkey) address size is_write false

validate_remote :
    MemoryRegionTable → Option MemoryRegion → ℕ → ℕ → ℕ → Bool → Bool × MemoryRegionTable
unfolding validate_access access_error
validate_remote t none pd_handle address size is_write = (false, access_error t)
validate_remote t (some mr) pd_handle address size is_write =
    if not (mr.pd_handle == pd_handle)
    then (false, access_error t)
    else validate_access t (some mr) address size is_write true

unfoldable pub validate_rkey : MemoryRegionTable → ℕ → ℕ → ℕ → ℕ → Bool → Bool × MemoryRegionTable
unfolding validate_remote get_by_rkey
validate_rkey t rkey pd_handle address size is_write =
    let t' = record t {
      stats = record (t.stats) { rkey_validations = add64 (t.stats.rkey_validations) 1 };
    } in
    validate_remote t' (get_by_rkey t rkey) pd_handle address size is_write

unfoldable pub reset : MemoryRegionTable → MemoryRegionTable
reset t = record t { mrs_by_lkey = []; mrs_by_rkey = []; next_key = 0x100; stats = no_stats }
