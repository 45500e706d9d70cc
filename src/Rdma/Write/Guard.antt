-- ===== src/Rdma/Write/Guard.antt =====
-- What the responder of a WRITE does to host memory, whatever the packet.
use smart_nic.Base.Assoc.{lookup}
use smart_nic.Rdma.Opcode.{opcode_is_first, opcode_is_only}
use smart_nic.Rdma.QueuePair.Work.{consume_recv, can_receive}
use smart_nic.Rdma.QueuePair.{RdmaQueuePair}
use smart_nic.Rdma.Wqe.{RecvWqe}
use smart_nic.Rdma.MrTable.Access.{Permitted, validate_rkey-Permitted, validate_rkey-kept}
use smart_nic.Rdma.Packet.Parser.{RdmaPacketParser}
use smart_nic.Rdma.Write.Process.{
  accept_payload, put_state, notify, write_payload, write_checked, write_started,
  process_write_packet, count_written, after_packet, ends_message, begin_message, write_state,
  is_write,
}
use smart_nic.Rdma.Write.{write_to_remote, WriteProcessor, WriteMessageState, WriteResult}
use smart_nic.Rdma.Transfer.{HostAccess, Site}
use smart_nic.Rdma.MrTable.{MemoryRegionTable, validate_rkey, get_by_rkey}
use smart_nic.Base.{
  true, refl, none, some, ℕ, List, ◌≡◌, ◌⊎◌, if-cases, length, Bool, not, inl, inr, arith, Option,
  add64, ◌==◌, ◌&&◌, ap, ◌||◌, sym, ◌∙◌,
}
use smart_nic.Memory.Host.{write}

-- Memory is as it was, or the packet's payload was written where that is permitted.
abbrev pub Guards : HostAccess → ℕ → List ℕ → HostAccess → Type 0
Guards h pd payload h' =
    (h'.host_memory ≡ h.host_memory)
    ⊎ ((address : ℕ) × Permitted h.mr_table true pd address (length payload)
        × (h'.host_memory ≡ (write h.host_memory address payload).1))

write_to_remote-Guards :
    (h : HostAccess) (address rkey pd : ℕ) (payload : List ℕ)
    → Guards h pd payload (write_to_remote h address rkey pd payload).1
unfolding write_to_remote
write_to_remote-Guards h address rkey pd payload =
    if-cases (λ (r : Bool × HostAccess). Guards h pd payload r.1)
      (not (validate_rkey h.mr_table rkey pd address (length payload) true).0) _ _ (λ e. inl refl)
      (λ e. inr (
        address,
        validate_rkey-Permitted h.mr_table rkey pd address _ true (ground (arith, e)),
        refl,
      ))

notify-host :
    (s : Site WriteProcessor) (p : RdmaPacketParser) (st : WriteMessageState)
    (c : Option RecvWqe × RdmaQueuePair)
    → (notify s p st c).1.host ≡ s.host
unfolding notify
notify-host s p st (none, q) = refl
notify-host s p st (some w, q) = refl

accept_payload-host :
    (s : Site WriteProcessor) (p : RdmaPacketParser) (st : WriteMessageState)
    → (accept_payload s p st).1.host ≡ s.host
unfolding accept_payload put_state count_written
accept_payload-host s p st =
    let s' = put_state (count_written s p) (after_packet p st) in
    if-cases (λ (r : WriteResult × Site WriteProcessor). r.1.host ≡ s.host)
      (ends_message p && (after_packet p st).has_immediate) _ _
      (λ e. notify-host s' p (after_packet p st) (consume_recv s'.qp)) (λ e. refl)

write_payload-Guards :
    (s : Site WriteProcessor) (p : RdmaPacketParser) (st : WriteMessageState)
    → Guards s.host s.qp.config.pd_handle p.payload (write_payload s p st).1.host
unfolding write_payload put_state
write_payload-Guards s p st =
    let pd = s.qp.config.pd_handle in
    let address = add64 st.remote_address st.bytes_written in
    let (done, host) = write_to_remote s.host address st.rkey pd p.payload in
    let remote = write_to_remote-Guards s.host address st.rkey pd p.payload in
    let P = λ (r : WriteResult × Site WriteProcessor). Guards s.host pd p.payload r.1.host in
    if-cases P (length p.payload == 0) _ _ (λ e. rw (accept_payload-host s p st) (inl refl))
      (λ e.
        if-cases P (not done) _ _ (λ f. remote)
          (λ f. rw (accept_payload-host (record s { host = host }) p st) remote))

write_checked-Guards :
    (s : Site WriteProcessor) (p : RdmaPacketParser) (st : WriteMessageState)
    → Guards s.host s.qp.config.pd_handle p.payload (write_checked s p st).1.host
unfolding write_checked put_state
write_checked-Guards s p st =
    let pd = s.qp.config.pd_handle in
    let P = λ (r : WriteResult × Site WriteProcessor). Guards s.host pd p.payload r.1.host in
    let starts = opcode_is_first p.bth.opcode || opcode_is_only p.bth.opcode in
    if-cases P (not st.in_progress) _ _ (λ e. inl refl)
      (λ e.
        if-cases P (not starts && not (st.expected_psn == p.bth.psn)) _ _ (λ f. inl refl)
          (λ f. write_payload-Guards s p st))

-- A validation only counts: what the table permits stays.
Guards-table :
    (h : HostAccess) (t : MemoryRegionTable) (pd : ℕ) (payload : List ℕ) (h' : HostAccess)
    → t.mrs_by_rkey ≡ h.mr_table.mrs_by_rkey
    → Guards (record h { mr_table = t }) pd payload h'
    → Guards h pd payload h'
unfolding get_by_rkey
Guards-table h t pd payload h' e (inl same) = inl same
Guards-table h t pd payload h' e (inr (a, (rkey, mr, found, domain, ok), m)) =
    inr (a, (rkey, mr, ap (lookup rkey) (sym e) ∙ found, domain, ok), m)

write_started-Guards :
    (s : Site WriteProcessor) (p : RdmaPacketParser)
    → Guards s.host s.qp.config.pd_handle p.payload (write_started s p).1.host
unfolding write_started put_state
write_started-Guards s p =
    let pd = s.qp.config.pd_handle in
    let P = λ (r : WriteResult × Site WriteProcessor). Guards s.host pd p.payload r.1.host in
    let rkey = p.reth.rkey in
    let at = p.reth.virtual_address in
    let n = p.reth.dma_length in
    let (valid, table) = validate_rkey s.host.mr_table rkey pd at n true in
    let s' : Site WriteProcessor = record s { host = record (s.host) { mr_table = table } } in
    let st = begin_message (write_state s) p.reth p.bth.psn in
    if-cases P (not p.has_reth) _ _ (λ e. inl refl)
      (λ e.
        if-cases P (not valid) _ _ (λ f. inl refl)
          (λ f.
            Guards-table s.host table pd p.payload (write_checked s' p st).1.host
              (validate_rkey-kept s.host.mr_table rkey pd at n true)
              (write_checked-Guards s' p st)))

-- Whatever packet comes, host memory stays as it was, or the packet's payload, and nothing else, is written,
-- in a region of the queue pair's protection domain whose test lets that remote write through.
pub process_write-guarded :
    (s : Site WriteProcessor) (p : RdmaPacketParser)
    → Guards s.host s.qp.config.pd_handle p.payload (process_write_packet s p).1.host
unfolding process_write_packet
process_write-guarded s p =
    let pd = s.qp.config.pd_handle in
    let P = λ (r : WriteResult × Site WriteProcessor). Guards s.host pd p.payload r.1.host in
    let starts = opcode_is_first p.bth.opcode || opcode_is_only p.bth.opcode in
    if-cases P (not (is_write p.bth.opcode)) _ _ (λ e. inl refl)
      (λ e.
        if-cases P (not (can_receive s.qp)) _ _ (λ f. inl refl)
          (λ f.
            if-cases P (not (p.bth.psn == s.qp.rq_psn)) _ _ (λ g. inl refl)
              (λ g.
                if-cases P starts _ _ (λ h. write_started-Guards s p)
                  (λ h. write_checked-Guards s p (write_state s)))))
