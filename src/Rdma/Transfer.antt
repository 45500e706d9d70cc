-- ===== src/Rdma/Transfer.antt =====
-- What the three processors of src/rocev2 (SEND, WRITE and READ) have in common: the host memory and the
-- memory region table they refer to, the scatter-gather lists, and the sizes of the packets of a message.
use smart_nic.Memory.Host.{read, write}
use smart_nic.Memory.Dma.{SglEntry}
use smart_nic.Rdma.MrTable.{MemoryRegionTable, validate_lkey}
use smart_nic.Base.{
  ℕ, List, if◌then◌else◌, ◌+◌, ◌∷◌, [], drop, ◌==◌, ◌/◌, min, sub32, ◌*◌, false, sub64, add32, ◌-◌,
  length, ◌%◌, replicate, ◌^◌, ◌++◌, add64, not, take, leb,
}
use smart_nic.Rdma.QueuePair.{RdmaQueuePair}
use smart_nic.Memory.Host.{SimpleHostMemory, is_ok}
pub mod Segments
pub mod Sgl

-- `host_memory_` and `mr_table_`, which the processors refer to.
pub record HostAccess : Type 0 where
  pub host_memory : SimpleHostMemory
  pub mr_table : MemoryRegionTable

-- What a call of a processor with the state `P` can change.
pub record Site (P : Type 0) : Type 0 where
  pub processor : P
  pub host : HostAccess
  pub qp : RdmaQueuePair

-- What is sent: the packets, and what the call changed.
pub record Sent (P : Type 0) : Type 0 where
  pub packets : List (List ℕ)
  pub site : Site P

-- The loop over the entries, with the data that is read so far; a buffer is filled with zeros before it
-- is read into.
unfoldable pub read_entries : ℕ → HostAccess → List ℕ → List SglEntry → List ℕ × HostAccess
read_entries lkey h bytes [] = (bytes, h)
read_entries lkey h bytes (entry ∷ entries) =
    let (valid, table) = validate_lkey h.mr_table lkey entry.address entry.size false in
    let (done, got) = read h.host_memory entry.address (replicate entry.size 0) in
    let h' = record h { mr_table = table } in
    let rest = read_entries lkey h' (bytes ++ got) entries in
    if not valid then ([], h') else if not (is_ok done) then ([], h') else rest

unfoldable pub read_from_sgl : HostAccess → List SglEntry → ℕ → List ℕ × HostAccess
unfolding read_entries
read_from_sgl h sgl lkey = read_entries lkey h [] sgl

-- Where `write_to_sgl` is: the bytes written, the memory, and the place in the list.
pub record Written : Type 0 where
  pub count : ℕ
  pub memory : SimpleHostMemory
  pub sge_idx : ℕ
  pub sge_offset : ℕ

-- The loop, over the entries from `idx` on. An entry that is not full took all the data that was left,
-- which ends the loop.
unfoldable pub write_entries : SimpleHostMemory → List SglEntry → List ℕ → ℕ → ℕ → Written
write_entries m [] bytes idx off = record { count = 0; memory = m; sge_idx = idx; sge_offset = off }
write_entries m (entry ∷ entries) [] idx off = record {
  count = 0;
  memory = m;
  sge_idx = idx;
  sge_offset = off;
}
write_entries m (entry ∷ entries) (b ∷ bs) idx off =
    let to_write = min (sub64 entry.size off) (length (b ∷ bs)) in
    let (done, m') = write m (add64 entry.address off) (take to_write (b ∷ bs)) in
    let rest = write_entries m' entries (drop to_write (b ∷ bs)) (idx + 1) 0 in
    if not (is_ok done)
    then record { count = 0; memory = m; sge_idx = idx; sge_offset = off }
    else if leb entry.size (off + to_write)
    then record rest { count = to_write + rest.count }
    else record { count = to_write; memory = m'; sge_idx = idx; sge_offset = off + to_write }

unfoldable pub write_to_sgl : SimpleHostMemory → List SglEntry → List ℕ → ℕ → ℕ → Written
unfolding write_entries
write_to_sgl m sgl bytes idx off = write_entries m (drop idx sgl) bytes idx off

-- In 32-bit arithmetic.
unfoldable pub calculate_packet_count : ℕ → ℕ → ℕ
calculate_packet_count total_length mtu =
    if total_length == 0 then 1 else sub32 (add32 total_length mtu) 1 / mtu

-- `((n + 3) & ~3) - n`, as a byte.
unfoldable pub pad_count : ℕ → ℕ
pad_count n = ((n + 3) / 4 * 4 - n) % 2 ^ 8
