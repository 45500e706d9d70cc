-- ===== src/Rdma/Transfer/Sgl.antt =====
-- `write_to_sgl` where the scatter-gather list lies in a memory that has no translator and no fault
-- injector: it writes as many bytes as there is room for.
use smart_nic.Memory.Host.Laws.{write-viewed}
use smart_nic.Rdma.Transfer.{write_entries, SglEntry, Written, write_to_sgl}
use smart_nic.Base.{
  ℕ, List, ◌≡◌, none, ◌∷◌, length, ◌<◌, ◌≤◌, ◌+◌, ◌-◌, drop, ◌^◌, [], arith, true, length-splice,
  suc, sym, refl, drop-drop, sub64, zero, add64, min, take, length-take, ◌∙◌, length-drop,
  Bool-cases, leb, inl, inr,
}
use smart_nic.Memory.Host.{
  SimpleHostMemory, write, translate_view, injects, mapped, map_bounds, in_buffer, is_ok, viewed,
}

-- No callback, and a size that is an address.
abbrev pub Plain : SimpleHostMemory → Type 0
Plain m = (m.translator ≡ none) × (m.fault_injector ≡ none) × (length m.buffer < 2 ^ 64)

-- The entries lie in a buffer of `n` bytes.
abbrev pub Within : ℕ → List SglEntry → Type 0
Within n [] = Unit
Within n (e ∷ es) = (e.address + e.size ≤ n) × Within n es

-- The room from an offset in the first entry on.
abbrev pub room : List SglEntry → ℕ → ℕ
room [] off = 0
room (e ∷ es) off = e.size - off + room es 0

-- The offset is in the first entry.
abbrev pub InFirst : List SglEntry → ℕ → Type 0
InFirst [] off = off ≡ 0
InFirst (e ∷ es) off = off ≤ e.size

view-Plain :
    (m : SimpleHostMemory) (address n : ℕ)
    → Plain m
    → address + n ≤ length m.buffer
    → translate_view m address n ≡ viewed (record { offset = address; size = n; address = address })
unfolding translate_view injects mapped map_bounds in_buffer
view-Plain m address n (t, f, l) h = rw f (rw t (ground (arith, h)))

write-Plain :
    (m : SimpleHostMemory) (address : ℕ) (bytes : List ℕ)
    → Plain m
    → address + length bytes ≤ length m.buffer
    → let (r, m') = write m address bytes in
      (is_ok r ≡ true) × Plain m' × (length m'.buffer ≡ length m.buffer)
unfolding is_ok
write-Plain m address bytes plain h =
    let size = length-splice m.buffer address bytes in
    rw
      (write-viewed m address (length bytes) _ (view-Plain m address (length bytes) plain h) bytes
        refl)
      (refl, (plain.0, plain.1, omega (arith, size, plain.2)), size)

pub InFirst-zero : (es : List SglEntry) → InFirst es 0
InFirst-zero [] = refl
InFirst-zero (e ∷ es) = omega arith

pub Within-drop : (n k : ℕ) (es : List SglEntry) → Within n es → Within n (drop k es)
Within-drop n zero es h = h
Within-drop n (suc k) [] h = h
Within-drop n (suc k) (e ∷ es) (h, hs) = Within-drop n k es hs

next_entry :
    (sgl es : List SglEntry) (e : SglEntry) (idx : ℕ)
    → e ∷ es ≡ drop idx sgl
    → es ≡ drop (idx + 1) sgl
next_entry sgl es e idx at = rw (sym (drop-drop idx 1 sgl)) (rw (sym at) refl)

-- Where the entries have room for all of the bytes, all are written; the place in the list is again in
-- its first entry, and the room is less by what was written.
abbrev pub WritesAll : List SglEntry → SimpleHostMemory → ℕ → ℕ → Written → Type 0
WritesAll sgl m space n w =
    (w.count ≡ n)
    × Plain w.memory
    × (length w.memory.buffer ≡ length m.buffer)
    × InFirst (drop w.sge_idx sgl) w.sge_offset
    × (room (drop w.sge_idx sgl) w.sge_offset + n ≡ space)

write_entries-all :
    (sgl : List SglEntry) (m : SimpleHostMemory) (entries : List SglEntry) (bytes : List ℕ)
    (idx off : ℕ)
    → entries ≡ drop idx sgl
    → Plain m
    → Within (length m.buffer) entries
    → InFirst entries off
    → length bytes ≤ room entries off
    → WritesAll sgl m (room entries off) (length bytes) (write_entries m entries bytes idx off)
unfolding write_entries
write_entries-all sgl m [] [] idx off at plain within first fits =
    (refl, plain, refl, rw (sym at) first, rw (sym at) (omega arith))
write_entries-all sgl m [] (b ∷ bs) idx off at plain within first fits =
    absurd (omega (arith, fits))
write_entries-all sgl m (e ∷ es) [] idx off at plain within first fits =
    (refl, plain, refl, rw (sym at) first, rw (sym at) (omega arith))
write_entries-all sgl m (e ∷ es) (b ∷ bs) idx off at plain (here, there) first fits =
    let size : sub64 e.size off ≡ e.size - off = omega (arith, here, plain.2, first) in
    let address : add64 e.address off ≡ e.address + off = omega (arith, here, plain.2, first) in
    let n = min (e.size - off) (length (b ∷ bs)) in
    let taken : length (take n (b ∷ bs)) ≡ n = length-take n (b ∷ bs) ∙ omega arith in
    let dropped = length-drop n (b ∷ bs) in
    let (ok, plain', same) =
      write-Plain m (e.address + off) (take n (b ∷ bs)) plain (omega (arith, taken, here, first)) in
    let m' = (write m (e.address + off) (take n (b ∷ bs))).1 in
    let rest =
      write_entries-all sgl m' es (drop n (b ∷ bs)) (idx + 1) 0 (next_entry sgl es e idx at)
        plain' in
    elim (Bool-cases (leb e.size (off + n))) [
      | inl full ↦
          let (count, plain2, same2, first2, room2) =
            rest (rw (sym same) at there) (InFirst-zero es)
              (ground (arith, dropped, full, fits, first)) in
          rw size (
            rw address (
              rw ok (
                rw full (
                  omega (arith, count, dropped),
                  plain2,
                  same2 ∙ same,
                  first2,
                  ground (arith, room2, dropped, full, fits, first),
                ))))
      | inr partial ↦ rw size (
          rw address (
            rw ok (
              rw partial (
                ground (arith, partial),
                plain',
                same,
                rw (sym at) (ground (arith, partial)),
                rw (sym at) (ground (arith, partial)),
              ))))
    ]

-- From a place in its list, `write_to_sgl` writes all of the bytes that there is room for.
pub write_to_sgl-all :
    (m : SimpleHostMemory) (sgl : List SglEntry) (bytes : List ℕ) (idx off : ℕ)
    → Plain m
    → Within (length m.buffer) sgl
    → InFirst (drop idx sgl) off
    → length bytes ≤ room (drop idx sgl) off
    → WritesAll sgl m (room (drop idx sgl) off) (length bytes) (write_to_sgl m sgl bytes idx off)
unfolding write_to_sgl
write_to_sgl-all m sgl bytes idx off plain within first fits =
    write_entries-all sgl m (drop idx sgl) bytes idx off refl plain (Within-drop _ idx sgl within)
      first fits
