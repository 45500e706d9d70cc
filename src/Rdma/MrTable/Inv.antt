-- ===== src/Rdma/MrTable/Inv.antt =====
-- The two tables of memory regions agree, and a deregistered region is gone from both.
use smart_nic.Base.{
  ℕ, true, none, some, refl, ◌≤◌, ◌≡◌, ◌+◌, Bool-cases, if◌then◌else◌, ◌==◌, inl, inr, arith, List,
  ◌<◌, ◌≢◌, ◌^◌, leb, length, ◌||◌, add32,
}
use smart_nic.Base.Assoc.{lookup, insert, erase, lookup-insert, lookup-erase}
use smart_nic.Rdma.MrTable.{
  MemoryRegionTable, MemoryRegion, AccessFlags, register_mr, deregister_mr, deregister_found,
  get_by_lkey, get_by_rkey, emplace, fail_registration, create,
}

-- Both tables hold the same regions, each under its own keys, and no key at or above the next one
-- is in use. After 2^32 keys the counter wraps, which is outside.
pub record Agree (t : MemoryRegionTable) : Type 0 where
  pub fresh :
      (k : ℕ) → t.next_key ≤ k → (lookup k t.mrs_by_lkey ≡ none) × (lookup k t.mrs_by_rkey ≡ none)
  pub by_lkey :
      (k : ℕ) (mr : MemoryRegion)
      → lookup k t.mrs_by_lkey ≡ some mr
      → (mr.lkey ≡ k) × (lookup mr.rkey t.mrs_by_rkey ≡ some mr)
  pub by_rkey :
      (k : ℕ) (mr : MemoryRegion)
      → lookup k t.mrs_by_rkey ≡ some mr
      → (mr.rkey ≡ k) × (lookup mr.lkey t.mrs_by_lkey ≡ some mr)

create-Agree : (n : ℕ) → Agree (create n)
unfolding create lookup
create-Agree n = record {
  fresh = λ k h. (refl, refl);
  by_lkey = λ k mr e. cc;
  by_rkey = λ k mr e. cc;
}

-- The tables after a registration that is not refused.
module _ (t : MemoryRegionTable) (v : Agree t) (mr : MemoryRegion) (l : mr.lkey ≡ t.next_key)
    (r : mr.rkey ≡ t.next_key + 1) where
  added_l :
      (k : ℕ)
      → lookup k (insert mr.lkey mr t.mrs_by_lkey)
        ≡ (if mr.lkey == k then some mr else lookup k t.mrs_by_lkey)
  added_l k = lookup-insert mr.lkey k mr t.mrs_by_lkey

  added_r :
      (k : ℕ)
      → lookup k (insert mr.rkey mr t.mrs_by_rkey)
        ≡ (if mr.rkey == k then some mr else lookup k t.mrs_by_rkey)
  added_r k = lookup-insert mr.rkey k mr t.mrs_by_rkey

  added_by_lkey :
      (k : ℕ) (m : MemoryRegion)
      → lookup k (insert mr.lkey mr t.mrs_by_lkey) ≡ some m
      → (m.lkey ≡ k) × (lookup m.rkey (insert mr.rkey mr t.mrs_by_rkey) ≡ some m)
  added_by_lkey k m e = ground (arith, added_l k, added_r m.rkey, v.by_lkey k m, v.fresh mr.rkey)

  added_by_rkey :
      (k : ℕ) (m : MemoryRegion)
      → lookup k (insert mr.rkey mr t.mrs_by_rkey) ≡ some m
      → (m.rkey ≡ k) × (lookup m.lkey (insert mr.lkey mr t.mrs_by_lkey) ≡ some m)
  added_by_rkey k m e = ground (arith, added_r k, added_l m.lkey, v.by_rkey k m, v.fresh mr.lkey)

  added_fresh :
      (k : ℕ)
      → t.next_key + 2 ≤ k
      → (lookup k (insert mr.lkey mr t.mrs_by_lkey) ≡ none)
        × (lookup k (insert mr.rkey mr t.mrs_by_rkey) ≡ none)
  added_fresh k h = ground (arith, added_l k, added_r k, v.fresh k)

-- The tables after a region was taken out.
module _ (t : MemoryRegionTable) (v : Agree t) (mr : MemoryRegion)
    (found : lookup mr.lkey t.mrs_by_lkey ≡ some mr) where
  removed_by_lkey :
      (k : ℕ) (m : MemoryRegion)
      → lookup k (erase mr.lkey t.mrs_by_lkey) ≡ some m
      → (m.lkey ≡ k) × (lookup m.rkey (erase mr.rkey t.mrs_by_rkey) ≡ some m)
  removed_by_lkey k m e = ground (
    arith,
    lookup-erase mr.lkey k t.mrs_by_lkey,
    lookup-erase mr.rkey m.rkey t.mrs_by_rkey,
    v.by_lkey k m,
    v.by_lkey mr.lkey mr found,
  )

  removed_by_rkey :
      (k : ℕ) (m : MemoryRegion)
      → lookup k (erase mr.rkey t.mrs_by_rkey) ≡ some m
      → (m.rkey ≡ k) × (lookup m.lkey (erase mr.lkey t.mrs_by_lkey) ≡ some m)
  removed_by_rkey k m e = ground (
    arith,
    lookup-erase mr.rkey k t.mrs_by_rkey,
    lookup-erase mr.lkey m.lkey t.mrs_by_lkey,
    v.by_rkey k m,
    v.by_lkey mr.lkey mr found,
  )

  removed_fresh :
      (k : ℕ)
      → t.next_key ≤ k
      → (lookup k (erase mr.lkey t.mrs_by_lkey) ≡ none)
        × (lookup k (erase mr.rkey t.mrs_by_rkey) ≡ none)
  removed_fresh k h =
      ground (
        arith,
        lookup-erase mr.lkey k t.mrs_by_lkey,
        lookup-erase mr.rkey k t.mrs_by_rkey,
        v.fresh k,
      )

emplace_new :
    (k : ℕ) (mr : MemoryRegion) (m : List (ℕ × MemoryRegion))
    → lookup k m ≡ none
    → emplace k mr m ≡ insert k mr m
unfolding emplace
emplace_new k mr m h = rw h

failed-Agree : (t : MemoryRegionTable) → Agree t → Agree (fail_registration t)
unfolding fail_registration
failed-Agree t v = record { fresh = v.fresh; by_lkey = v.by_lkey; by_rkey = v.by_rkey }

-- What `register_mr` enters for the arguments of a call.
abbrev pub new_region : MemoryRegionTable → ℕ → ℕ → ℕ → AccessFlags → MemoryRegion
new_region t pd address size access = record {
  lkey = t.next_key;
  rkey = t.next_key + 1;
  virtual_address = address;
  size = size;
  pd_handle = pd;
  access = access;
  is_valid = true;
}

-- Where the two tables agree and the next key is below 2^32 - 2, a registration keeps them in
-- agreement. It is refused exactly when the table is full or the size is zero; otherwise the key
-- it gives was not in use, and the region with the given domain, address, size and access is found
-- under that key and under its remote key.
pub register_mr-Agree :
    (t : MemoryRegionTable) (pd address size : ℕ) (access : AccessFlags)
    → Agree t
    → t.next_key + 2 < 2 ^ 32
    → let (key, t') = register_mr t pd address size access in
      let mr = new_region t pd address size access in
      Agree t'
      × (if leb t.max_mrs (length t.mrs_by_lkey) || size == 0
          then (key ≡ none) × (t'.mrs_by_lkey ≡ t.mrs_by_lkey)
          else (key ≡ some mr.lkey)
            × (get_by_lkey t mr.lkey ≡ none)
            × (get_by_lkey t' mr.lkey ≡ some mr)
            × (get_by_rkey t' mr.rkey ≡ some mr))
unfolding register_mr get_by_lkey get_by_rkey
register_mr-Agree t pd address size access v small =
    elim (Bool-cases (leb t.max_mrs (length t.mrs_by_lkey))) [
      | inl full ↦ rw full (failed-Agree t v, (refl, refl))
      | inr room ↦ elim (Bool-cases (size == 0)) [
        | inl empty ↦ rw (room, empty) (failed-Agree t v, (refl, refl))
        | inr some_bytes ↦
            let mr = new_region t pd address size access in
            let second : add32 t.next_key 1 ≡ t.next_key + 1 = omega arith in
            let third : add32 (t.next_key + 1) 1 ≡ t.next_key + 2 = omega arith in
            let free_l = (v.fresh t.next_key (omega arith)).0 in
            let free_r = (v.fresh (t.next_key + 1) (omega arith)).1 in
            rw
              (
                room,
                some_bytes,
                second,
                third,
                emplace_new t.next_key mr t.mrs_by_lkey free_l,
                emplace_new (t.next_key + 1) mr t.mrs_by_rkey free_r,
              )
              (
                record {
                  fresh = added_fresh t v mr refl refl;
                  by_lkey = added_by_lkey t v mr refl refl;
                  by_rkey = added_by_rkey t v mr refl refl;
                },
                (
                  refl,
                  free_l,
                  ground (arith, lookup-insert t.next_key t.next_key mr t.mrs_by_lkey),
                  ground (arith, lookup-insert (t.next_key + 1) (t.next_key + 1) mr t.mrs_by_rkey),
                ),
              )
      ]
    ]

-- Where the two tables agree, deregistering a registered region by its local key succeeds and
-- keeps them in agreement. Neither the local nor the remote key of that region finds anything any
-- more, and every region with another local key stays, under both of its keys.
pub deregister_mr-Agree :
    (t : MemoryRegionTable) (mr : MemoryRegion)
    → Agree t
    → get_by_lkey t mr.lkey ≡ some mr
    → let (done, t') = deregister_mr t mr.lkey in
      Agree t'
      × (done ≡ true)
      × (get_by_lkey t' mr.lkey ≡ none)
      × (get_by_rkey t' mr.rkey ≡ none)
      × ((m : MemoryRegion)
          → m.lkey ≢ mr.lkey
          → get_by_lkey t m.lkey ≡ some m
          → (get_by_lkey t' m.lkey ≡ some m) × (get_by_rkey t' m.rkey ≡ some m))
unfolding deregister_mr deregister_found get_by_lkey get_by_rkey
deregister_mr-Agree t mr v found =
    let own = v.by_lkey mr.lkey mr found in
    rw (found, deregister_found)
      (
        record {
          fresh = removed_fresh t v mr found;
          by_lkey = removed_by_lkey t v mr found;
          by_rkey = removed_by_rkey t v mr found;
        },
        refl,
        ground (arith, lookup-erase mr.lkey mr.lkey t.mrs_by_lkey),
        ground (arith, lookup-erase mr.rkey mr.rkey t.mrs_by_rkey),
        λ m other there.
            let back = v.by_lkey m.lkey m there in
            (
              ground (arith, lookup-erase mr.lkey m.lkey t.mrs_by_lkey),
              ground (
                arith,
                lookup-erase mr.rkey m.rkey t.mrs_by_rkey,
                v.by_rkey m.rkey m,
                v.by_rkey mr.rkey mr,
                own,
                back,
              ),
            ),
      )
