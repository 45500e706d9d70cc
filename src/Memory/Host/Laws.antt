-- ===== src/Memory/Host/Laws.antt =====
-- What a caller of the host memory may rely on.
use smart_nic.Base.{
  ℕ, ◌+◌, ◌≤◌, ◌⊎◌, ◌≡◌, ◌≢◌, refl, sym, ◌∙◌, ap, subst, true, Bool-cases, inl, inr, false, Option,
  none, some, List, length, slice, splice, arith, length-splice, splice_all, length-slice,
  slice-splice_self, slice-splice_before, slice-splice_after,
}
use smart_nic.Memory.Host.{
  SimpleHostMemory, HostMemoryResult, HostMemoryView, HostMemoryError, ok_none, Translated, denied,
  viewed, out_of_bounds, fault_injected, iommu_fault, is_ok, translate_view, read, write, read_view,
  write_view, in_buffer, map_bounds, injects, mapped, result,
}

-- A granted view lies inside the buffer and has the size that was asked for.
abbrev pub Granted : SimpleHostMemory → ℕ → Translated → Type 0
Granted m n (denied e) = e ≢ ok_none
Granted m n (viewed v) = (v.offset + v.size ≤ length m.buffer) × (v.size ≡ n)

in_buffer-Granted :
    (m : SimpleHostMemory) (offset n : ℕ) → Granted m n (in_buffer (length m.buffer) offset n)
unfolding in_buffer
in_buffer-Granted m offset n = ground arith

map_bounds-Granted :
    (m : SimpleHostMemory) (n : ℕ) (o : Option ℕ) → Granted m n (map_bounds (length m.buffer) n o)
unfolding map_bounds
map_bounds-Granted m n none = λ q. cc
map_bounds-Granted m n (some offset) = in_buffer-Granted m offset n

-- The host memory never grants an access outside its buffer: whatever the callbacks answer, a
-- translation is either refused with an error, or a view of exactly the bytes asked for that ends
-- inside the buffer.
pub translate_view-Granted :
    (m : SimpleHostMemory) (address n : ℕ) → Granted m n (translate_view m address n)
unfolding translate_view
translate_view-Granted m address n = elim (Bool-cases (injects m.fault_injector address n)) [
  | inl e ↦ rw e (λ q. cc)
  | inr e ↦ rw e (map_bounds-Granted m n (mapped m.translator address n))
]

-- Translation reads no byte, only the buffer's size.
pub translate_view-set :
    (m : SimpleHostMemory) (b : List ℕ) (address n : ℕ)
    → length b ≡ length m.buffer
    → translate_view (record m { buffer = b }) address n ≡ translate_view m address n
unfolding translate_view
translate_view-set m b address n e = rw e

-- What `read` and `write` do with the view that they get.
pub read-denied :
    (m : SimpleHostMemory) (address : ℕ) (out : List ℕ) (e : HostMemoryError)
    → translate_view m address (length out) ≡ denied e
    → read m address out ≡ (record { error = e; bytes_processed = 0 }, out)
unfolding read result
read-denied m address out e h = rw (h, read_view)

pub write-denied :
    (m : SimpleHostMemory) (address : ℕ) (ds : List ℕ) (e : HostMemoryError)
    → translate_view m address (length ds) ≡ denied e
    → write m address ds ≡ (record { error = e; bytes_processed = 0 }, m)
unfolding write result
write-denied m address ds e h = rw (h, write_view)

module _ (m : SimpleHostMemory) (address n : ℕ) (v : HostMemoryView)
    (h : translate_view m address n ≡ viewed v) where
  pub viewed-Granted : Granted m n (viewed v)
  viewed-Granted = subst (Granted m n) h (translate_view-Granted m address n)

  pub read-viewed :
      (out : List ℕ)
      → length out ≡ n
      → read m address out
        ≡ (record { error = ok_none; bytes_processed = n }, slice m.buffer v.offset n)
  unfolding read result
  read-viewed out e =
      rw (e, h, read_view, viewed-Granted.1)
        (ap (λ b. (record { error = ok_none; bytes_processed = n }, b))
          (splice_all out (slice m.buffer v.offset n)
            (length-slice m.buffer v.offset n (omega (arith, viewed-Granted)) ∙ sym e)))

  pub write-viewed :
      (ds : List ℕ)
      → length ds ≡ n
      → write m address ds ≡ (
        record { error = ok_none; bytes_processed = n },
        record m { buffer = splice m.buffer v.offset ds },
      )
  unfolding write result
  write-viewed ds e = rw (e, h, write_view, viewed-Granted.1)

pub Translated-cases :
    (t : Translated)
    → ((e : HostMemoryError) × (t ≡ denied e)) ⊎ ((v : HostMemoryView) × (t ≡ viewed v))
Translated-cases (denied e) = inl (e, refl)
Translated-cases (viewed v) = inr (v, refl)

-- A refused translation carries an error, so its result is not ok.
pub denied-error :
    (m : SimpleHostMemory) (address n : ℕ) (e : HostMemoryError)
    → translate_view m address n ≡ denied e
    → e ≢ ok_none
denied-error m address n e h = subst (Granted m n) h (translate_view-Granted m address n)

error-not_ok :
    (e : HostMemoryError) → e ≢ ok_none → is_ok (record { error = e; bytes_processed = 0 }) ≡ false
unfolding is_ok
error-not_ok ok_none h = absurd (h refl)
error-not_ok out_of_bounds h = refl
error-not_ok iommu_fault h = refl
error-not_ok fault_injected h = refl

pub write-ok-viewed :
    (m : SimpleHostMemory) (address : ℕ) (ds : List ℕ)
    → is_ok (write m address ds).0 ≡ true
    → (v : HostMemoryView) × (translate_view m address (length ds) ≡ viewed v)
write-ok-viewed m address ds ok = elim (Translated-cases (translate_view m address (length ds))) [
  | inl (e, h) ↦ cc (
    ok,
    ap (λ (p : HostMemoryResult × SimpleHostMemory). is_ok p.0) (write-denied m address ds e h),
    error-not_ok e (denied-error m address (length ds) e h),
  )
  | inr p ↦ p
]

-- A write that reports success is read back in full by a read of as many bytes at the same
-- address, whatever the reader's buffer held, and the read reports success too.
pub read-write :
    (m : SimpleHostMemory) (address : ℕ) (ds out : List ℕ)
    → length out ≡ length ds
    → is_ok (write m address ds).0 ≡ true
    → read (write m address ds).1 address out
      ≡ (record { error = ok_none; bytes_processed = length ds }, ds)
read-write m address ds out same ok =
    let (v, h) = write-ok-viewed m address ds ok in
    let b : List ℕ = splice m.buffer v.offset ds in
    let g = viewed-Granted m address (length ds) v h in
    rw (write-viewed m address (length ds) v h ds refl) (
      read-viewed (record m { buffer = b }) address (length ds) v
        (translate_view-set m b address (length ds) (length-splice m.buffer v.offset ds) ∙ h) out
        same
      ∙ ap (λ c. (record { error = ok_none; bytes_processed = length ds }, c))
          (slice-splice_self m.buffer v.offset (length ds) ds refl (omega (arith, g))))

-- A write leaves the callbacks, the configuration and the buffer's size as they were, and changes
-- nothing when it fails; when it succeeds it changes no byte outside one block of as many bytes as
-- were given, which lies inside the buffer.
pub write_frame :
    (m : SimpleHostMemory) (address : ℕ) (ds : List ℕ)
    → let m' = (write m address ds).1 in
      (m'.translator ≡ m.translator)
      × (m'.fault_injector ≡ m.fault_injector)
      × (m'.config ≡ m.config)
      × (length m'.buffer ≡ length m.buffer)
      × ((is_ok (write m address ds).0 ≡ false) × (m' ≡ m)
          ⊎ ((offset : ℕ) × (offset + length ds ≤ length m.buffer)
              × ((a k : ℕ)
                  → (a + k ≤ offset) ⊎ (offset + length ds ≤ a)
                  → slice m'.buffer a k ≡ slice m.buffer a k)))
write_frame m address ds = elim (Translated-cases (translate_view m address (length ds))) [
  | inl (e, h) ↦
      rw (write-denied m address ds e h) (
        refl,
        refl,
        refl,
        refl,
        inl (error-not_ok e (denied-error m address (length ds) e h), refl),
      )
  | inr (v, h) ↦ rw (write-viewed m address (length ds) v h ds refl) (
    refl,
    refl,
    refl,
    length-splice m.buffer v.offset ds,
    inr (v.offset, omega (arith, viewed-Granted m address (length ds) v h), outside v.offset),
  )
]
  where
    outside :
        (offset a k : ℕ)
        → (a + k ≤ offset) ⊎ (offset + length ds ≤ a)
        → slice (splice m.buffer offset ds) a k ≡ slice m.buffer a k
    outside offset a k (inl h) = slice-splice_before m.buffer offset ds a k h
    outside offset a k (inr h) = slice-splice_after m.buffer offset ds a k h
