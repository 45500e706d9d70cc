-- ===== src/Memory/Dma/Counts.antt =====
-- What the counters of `DmaEngine` say of each operation.
use native.Mathlib.Nat.{div-add-mod, mul_comm}
use Prim.Native.String.{String}
use smart_nic.Base.{
  ℕ, zero, suc, ◌+◌, ◌*◌, ◌^◌, ◌<◌, ◌≡◌, ◌⊎◌, refl, true, false, List, arith, add64, inl, ap,
  length, ◌%◌, ◌/◌,
}
use smart_nic.Memory.Host.{HostMemoryResult, is_ok}
use smart_nic.Memory.Dma.{
  DmaEngine, DmaResult, done, succeeded, map_result, to_dma_error, count_error, write_beats,
  write_beat, count_burst_write, write_burst, begin_burst_write,
}

pub map_result-ok :
    (e : DmaEngine) (r : HostMemoryResult) (n : ℕ) (s : String)
    → is_ok r ≡ true
    → map_result e r n s ≡ (done n, e)
unfolding map_result
map_result-ok e r n s h = rw h

-- One access of `n` bytes either reports them and leaves the counters alone, or fails and is
-- counted as an error and as nothing else.
abbrev pub Access : DmaEngine → ℕ → DmaResult → DmaEngine → Type 0
Access e n r e' =
    ((r ≡ done n) × (e'.counters ≡ e.counters))
    ⊎ ((succeeded r ≡ false)
        × (e'.counters ≡ record (e.counters) { errors = add64 (e.counters.errors) 1 }))

pub map_result-Access :
    (e : DmaEngine) (host : HostMemoryResult) (n : ℕ) (s : String)
    → Access e n (map_result e host n s).0 (map_result e host n s).1
unfolding map_result succeeded count_error is_ok to_dma_error
map_result-Access e host n s = ground arith

-- What an operation that moves `n` bytes to the host, or fails, does to the counters.
abbrev pub WriteCounts : DmaEngine → ℕ → DmaResult → DmaEngine → Type 0
WriteCounts e n r e' =
    ((r ≡ done n)
      × (e'.counters.bytes_written ≡ add64 (e.counters.bytes_written) n)
      × (e'.counters.errors ≡ e.counters.errors))
    ⊎ ((succeeded r ≡ false)
        × (e'.counters.bytes_written ≡ e.counters.bytes_written)
        × (e'.counters.errors ≡ add64 (e.counters.errors) 1))

write_beat-Access :
    (address beat stride i : ℕ) (e : DmaEngine) (bytes : List ℕ)
    → let (r, e') = write_beat address beat stride i e bytes in Access e beat r e'
unfolding write_beat
write_beat-Access address beat stride i e bytes = map_result-Access _ _ beat "dma_write_burst"

write_beats-Counts :
    (address beat stride left i total : ℕ) (e : DmaEngine) (bytes : List ℕ)
    → total + left * beat < 2 ^ 64
    → let (r, e') = write_beats address beat stride left i total e bytes in
      WriteCounts e (total + left * beat) r e'
unfolding write_beats count_burst_write
write_beats-Counts address beat stride zero i total e bytes h =
    inl (ap done (omega arith), omega arith, refl)
write_beats-Counts address beat stride (suc left) i total e bytes h = ground (
  arith,
  write_beat-Access address beat stride i e bytes,
  write_beats-Counts address beat stride left (i + 1) (add64 total beat)
      (write_beat address beat stride i e bytes).1 bytes,
)

div-mul_exact : (n d : ℕ) → n % d ≡ 0 → n / d * d ≡ n
div-mul_exact n d h = omega (arith, div-add-mod n d, mul_comm d (n / d))

-- A burst write to the host of fewer than 2^64 bytes has one of two outcomes. Either it reports
-- exactly the bytes that it was given, adds them to `bytes_written` and adds no error; or it does
-- not report success, leaves `bytes_written` alone (also where earlier beats were written) and adds
-- one to `errors`.
pub write_burst-Counts :
    (e : DmaEngine) (address : ℕ) (bytes : List ℕ) (beat stride : ℕ)
    → length bytes < 2 ^ 64
    → let (r, e') = write_burst e address bytes beat stride in WriteCounts e (length bytes) r e'
unfolding write_burst begin_burst_write count_error succeeded
write_burst-Counts e address bytes beat stride h = ground (
  arith,
  div-mul_exact (length bytes) beat,
  write_beats-Counts address beat stride (length bytes / beat) 0 0 (begin_burst_write e) bytes,
)
