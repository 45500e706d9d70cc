-- ===== src/Memory/Dma.antt =====
-- include/nic/dma_types.h, include/nic/sgl.h, src/dma_types.cpp and src/dma_engine.cpp. The engine
-- owns no memory in the source, it refers to one; here that memory is a field. Trace and log calls
-- are left out.
pub mod Counts
use Prim.Native.String.{String}
use smart_nic.Base.{
  ℕ, zero, suc, ◌+◌, ◌*◌, ◌/◌, ◌%◌, ◌^◌, Bool, true, false, ◌||◌, not, Option, none, some, List, [],
  ◌∷◌, ltb, ◌==◌, if◌then◌else◌, length, slice, splice, add64,
}
use smart_nic.Memory.Host
use smart_nic.Memory.Host.{SimpleHostMemory, HostMemoryError, HostMemoryResult, is_ok}

pub data DmaError : Type 0 where
  no_error translation_fault out_of_bounds fault_injected access_error alignment_error
        internal_error :
      DmaError

pub record DmaResult : Type 0 where
  pub error : DmaError
  pub bytes_processed : ℕ
  pub message : Option String

pub data DmaDirection : Type 0 where
  reads writes : DmaDirection

pub record SglEntry : Type 0 where
  pub address : ℕ
  pub size : ℕ

pub record DmaCounters : Type 0 where
  pub read_ops : ℕ
  pub write_ops : ℕ
  pub burst_read_ops : ℕ
  pub burst_write_ops : ℕ
  pub bytes_read : ℕ
  pub bytes_written : ℕ
  pub errors : ℕ

pub record DmaEngine : Type 0 where
  pub memory : SimpleHostMemory
  pub counters : DmaCounters

abbrev pub failed : DmaError → Option String → DmaResult
failed e msg = record { error = e; bytes_processed = 0; message = msg }

abbrev pub done : ℕ → DmaResult
done n = record { error = no_error; bytes_processed = n; message = none }

unfoldable pub succeeded : DmaResult → Bool
succeeded r = elim r.error [ no_error ↦ true | _ ↦ false ]

pub to_dma_error : HostMemoryError → DmaError
to_dma_error HostMemoryError.ok_none = no_error
to_dma_error HostMemoryError.out_of_bounds = out_of_bounds
to_dma_error HostMemoryError.iommu_fault = translation_fault
to_dma_error HostMemoryError.fault_injected = fault_injected

unfoldable pub reset_counters : DmaEngine → DmaEngine
reset_counters e = record e {
  counters = record {
    read_ops = 0;
    write_ops = 0;
    burst_read_ops = 0;
    burst_write_ops = 0;
    bytes_read = 0;
    bytes_written = 0;
    errors = 0;
  };
}

count_error : DmaEngine → DmaEngine
count_error e = record e { counters = record (e.counters) { errors = add64 (e.counters.errors) 1 } }

-- `DMAEngine::map_result`; the direction only chooses between two empty branches there.
pub map_result : DmaEngine → HostMemoryResult → ℕ → String → DmaResult × DmaEngine
unfolding is_ok to_dma_error count_error
map_result e r requested context = if is_ok r then (done requested, e) else (
  record {
    error = to_dma_error r.error;
    bytes_processed = r.bytes_processed;
    message = some context;
  },
  count_error e,
)

count_read : DmaEngine → ℕ → DmaEngine
count_read e n = record e {
  counters = record (e.counters) {
    read_ops = add64 (e.counters.read_ops) 1;
    bytes_read = add64 (e.counters.bytes_read) n;
  };
}

count_write : DmaEngine → ℕ → DmaEngine
count_write e n = record e {
  counters = record (e.counters) {
    write_ops = add64 (e.counters.write_ops) 1;
    bytes_written = add64 (e.counters.bytes_written) n;
  };
}

-- The caller's buffer goes in, and comes back as the call leaves it.
unfoldable pub read : DmaEngine → ℕ → List ℕ → DmaResult × DmaEngine × List ℕ
unfolding map_result count_read succeeded
read e address out =
    let (host, out') = Host.read e.memory address out in
    let (r, e') = map_result e host (length out) "dma_read" in
    if succeeded r then (r, count_read e' r.bytes_processed, out') else (r, e', out')

unfoldable pub write : DmaEngine → ℕ → List ℕ → DmaResult × DmaEngine
unfolding map_result count_write succeeded
write e address bytes =
    let (host, m) = Host.write e.memory address bytes in
    let (r, e') = map_result (record e { memory = m }) host (length bytes) "dma_write" in
    if succeeded r then (r, count_write e' r.bytes_processed) else (r, e')

-- One round of the loop of `read_burst`: beat `i` of the buffer, from its own address.
read_beat : ℕ → ℕ → ℕ → ℕ → DmaEngine → List ℕ → DmaResult × DmaEngine × List ℕ
unfolding map_result
read_beat address beat stride i e out =
    let (host, piece) =
      Host.read e.memory (add64 address (i * stride % 2 ^ 64)) (slice out (i * beat) beat) in
    let (r, e') = map_result e host beat "dma_read_burst" in (r, e', splice out (i * beat) piece)

write_beat : ℕ → ℕ → ℕ → ℕ → DmaEngine → List ℕ → DmaResult × DmaEngine
unfolding map_result
write_beat address beat stride i e bytes =
    let (host, m) =
      Host.write e.memory (add64 address (i * stride % 2 ^ 64)) (slice bytes (i * beat) beat) in
    map_result (record e { memory = m }) host beat "dma_write_burst"

begin_burst_read : DmaEngine → DmaEngine
begin_burst_read e = record e {
  counters = record (e.counters) { burst_read_ops = add64 (e.counters.burst_read_ops) 1 };
}

count_burst_read : DmaEngine → ℕ → DmaEngine
count_burst_read e n = record e {
  counters = record (e.counters) { bytes_read = add64 (e.counters.bytes_read) n };
}

begin_burst_write : DmaEngine → DmaEngine
begin_burst_write e = record e {
  counters = record (e.counters) { burst_write_ops = add64 (e.counters.burst_write_ops) 1 };
}

count_burst_write : DmaEngine → ℕ → DmaEngine
count_burst_write e n = record e {
  counters = record (e.counters) { bytes_written = add64 (e.counters.bytes_written) n };
}

-- The beats from index `i` on, `left` of them; `total` bytes have been moved.
read_beats : ℕ → ℕ → ℕ → ℕ → ℕ → ℕ → DmaEngine → List ℕ → DmaResult × DmaEngine × List ℕ
unfolding read_beat succeeded count_burst_read
read_beats address beat stride zero i total e out = (done total, count_burst_read e total, out)
read_beats address beat stride (suc left) i total e out =
    let (r, e', out') = read_beat address beat stride i e out in
    let rest =
      read_beats address beat stride left (i + 1) (add64 total r.bytes_processed) e' out' in
    if succeeded r then rest else (r, e', out')

write_beats : ℕ → ℕ → ℕ → ℕ → ℕ → ℕ → DmaEngine → List ℕ → DmaResult × DmaEngine
unfolding write_beat succeeded count_burst_write
write_beats address beat stride zero i total e bytes = (done total, count_burst_write e total)
write_beats address beat stride (suc left) i total e bytes =
    let (r, e') = write_beat address beat stride i e bytes in
    let rest =
      write_beats address beat stride left (i + 1) (add64 total r.bytes_processed) e' bytes in
    if succeeded r then rest else (r, e')

unfoldable pub read_burst : DmaEngine → ℕ → List ℕ → ℕ → ℕ → DmaResult × DmaEngine × List ℕ
unfolding read_beats count_error begin_burst_read
read_burst e address out beat stride =
    if beat == 0 || stride == 0
    then (failed alignment_error (some "invalid_stride"), count_error e, out)
    else if not (length out % beat == 0)
    then (failed alignment_error (some "partial_beat"), count_error e, out)
    else read_beats address beat stride (length out / beat) 0 0 (begin_burst_read e) out

unfoldable pub write_burst : DmaEngine → ℕ → List ℕ → ℕ → ℕ → DmaResult × DmaEngine
unfolding write_beats count_error begin_burst_write
write_burst e address bytes beat stride =
    if beat == 0 || stride == 0
    then (failed alignment_error (some "invalid_stride"), count_error e)
    else if not (length bytes % beat == 0)
    then (failed alignment_error (some "partial_beat"), count_error e)
    else write_beats address beat stride (length bytes / beat) 0 0 (begin_burst_write e) bytes

-- `SglView::total_length`, a sum of `size_t`.
unfoldable pub total_length : ℕ → List SglEntry → ℕ
total_length total [] = total
total_length total (s ∷ ss) = total_length (add64 total s.size) ss

-- The transfer of one entry.
move_entry : DmaEngine → DmaDirection → SglEntry → ℕ → List ℕ → DmaResult × DmaEngine × List ℕ
unfolding map_result
move_entry e reads s processed buf =
    let (host, piece) = Host.read e.memory s.address (slice buf processed s.size) in
    let (r, e') = map_result e host s.size "dma_sgl_read" in (r, e', splice buf processed piece)
move_entry e writes s processed buf =
    let (host, m) = Host.write e.memory s.address (slice buf processed s.size) in
    let (r, e') = map_result (record e { memory = m }) host s.size "dma_sgl_write" in (r, e', buf)

finish_sgl : DmaEngine → DmaDirection → ℕ → DmaEngine
unfolding count_read count_write
finish_sgl e reads n = count_read e n
finish_sgl e writes n = count_write e n

move_entries :
    DmaEngine → DmaDirection → List SglEntry → ℕ → List ℕ → DmaResult × DmaEngine × List ℕ
unfolding move_entry finish_sgl succeeded
move_entries e dir [] processed buf = (done processed, finish_sgl e dir processed, buf)
move_entries e dir (s ∷ ss) processed buf =
    let (r, e', buf') = move_entry e dir s processed buf in
    let skip = move_entries e dir ss processed buf in
    let next = move_entries e' dir ss (add64 processed r.bytes_processed) buf' in
    if s.size == 0 then skip else if succeeded r then next else (r, e', buf')

unfoldable pub transfer_sgl :
    DmaEngine → List SglEntry → DmaDirection → List ℕ → DmaResult × DmaEngine × List ℕ
unfolding move_entries count_error total_length
transfer_sgl e [] dir buf = (failed access_error (some "empty_sgl"), count_error e, buf)
transfer_sgl e (s ∷ ss) dir buf =
    if ltb (length buf) (total_length 0 (s ∷ ss))
    then (failed access_error (some "buffer_too_small"), count_error e, buf)
    else move_entries e dir (s ∷ ss) 0 buf
