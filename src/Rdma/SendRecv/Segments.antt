-- ===== src/Rdma/SendRecv/Segments.antt =====
-- The packets of a SEND message: what they carry, and what their receiver reads from them.
use smart_nic.Rdma.SendRecv.{SendRecvProcessor}
use smart_nic.Rdma.Transfer.{Site}
use smart_nic.Rdma.BitFields.{BitFields}
use smart_nic.Rdma.Psn.{advance_psn, psn_count, advance_psn-lt, advance_psn-advance_psn}
use smart_nic.Rdma.Transfer.Segments.{chunks}
use smart_nic.Rdma.Packet.Builder.{RdmaPacketBuilder, build}
use smart_nic.Rdma.QueuePair.Work.{record_packet_sent}
use smart_nic.Rdma.QueuePair.Reliable.{next_send_psn}
use smart_nic.Base.{
  ℕ, List, ◌∷◌, ◌+◌, ◌≡◌, ◌<◌, [], map, arith, suc, drop, zero, refl, slice, ◌∙◌, min, length, ◌-◌,
  take, slice-take, sym, drop-drop, drop_taken, ap,
}
use smart_nic.Rdma.SendRecv.Generate.{send_segments, send_packet, send_segment}
use smart_nic.Rdma.Wqe.{SendWqe}

-- The builders of the packets from packet `idx` on, for the payloads that are left.
abbrev pub builders : SendWqe → ℕ → ℕ → ℕ → ℕ → List (List ℕ) → List RdmaPacketBuilder
builders wqe dest count idx psn [] = []
builders wqe dest count idx psn (c ∷ cs) =
    send_packet wqe dest count idx psn c ∷ builders wqe dest count (idx + 1) (advance_psn psn 1) cs

pub one_more : (n : ℕ) → 1 + n ≡ suc n
one_more n = omega arith

advance_zero : {psn : ℕ} → psn < psn_count → psn ≡ advance_psn psn 0
unfolding advance_psn
advance_zero h = omega (arith, h)

module _ (bits : BitFields) (wqe : SendWqe) (bytes : List ℕ) (mtu count : ℕ) where
  send_segment_lem :
      (idx : ℕ) (payload : List ℕ) (s : Site SendRecvProcessor)
      → let (packet, s') = send_segment bits wqe bytes mtu count idx payload s in
        (packet ≡ build bits (send_packet wqe s.qp.dest_qp_number count idx s.qp.sq_psn payload))
        × (s'.qp.sq_psn ≡ advance_psn s.qp.sq_psn 1)
        × (s'.qp.dest_qp_number ≡ s.qp.dest_qp_number)
        × (s'.qp.pending_operations ≡ s.qp.pending_operations)
  unfolding send_segment next_send_psn record_packet_sent
  send_segment_lem idx payload s = (refl, refl, refl, refl)

  pub send_segments-packets :
      (left idx offset : ℕ) (s : Site SendRecvProcessor)
      → (send_segments bits wqe bytes mtu count left idx offset s).packets
        ≡ map (build bits) (
            builders wqe s.qp.dest_qp_number count idx s.qp.sq_psn
              (chunks mtu left (drop offset bytes)))
  unfolding send_segments chunks
  send_segments-packets zero idx offset s = refl
  send_segments-packets (suc left) idx offset s =
      let payload = slice bytes offset (min mtu (length bytes - offset)) in
      let s' = (send_segment bits wqe bytes mtu count idx payload s).1 in
      let (packet, psn, dest, _) = send_segment_lem idx payload s in
      let whole : payload ≡ take mtu (drop offset bytes) = slice-take mtu offset bytes in
      let next : drop (offset + length payload) bytes ≡ drop mtu (drop offset bytes) =
        rw whole (sym (drop-drop offset _ bytes) ∙ drop_taken mtu (drop offset bytes)) in
      let rest = send_segments-packets left (idx + 1) (offset + length payload) s' in cc

  pub send_segments-qp :
      (left idx offset : ℕ) (s : Site SendRecvProcessor)
      → s.qp.sq_psn < psn_count
      → ((send_segments bits wqe bytes mtu count left idx offset s).site.qp.sq_psn
          ≡ advance_psn s.qp.sq_psn left)
        × ((send_segments bits wqe bytes mtu count left idx offset s).site.qp.pending_operations
            ≡ s.qp.pending_operations)
  unfolding send_segments
  send_segments-qp zero idx offset s h = (advance_zero h, refl)
  send_segments-qp (suc left) idx offset s h =
      let payload = slice bytes offset (min mtu (length bytes - offset)) in
      let s' = (send_segment bits wqe bytes mtu count idx payload s).1 in
      let (packet, psn, dest, ops) = send_segment_lem idx payload s in
      let bound : s'.qp.sq_psn < psn_count = rw psn (advance_psn-lt s.qp.sq_psn 1) in
      let (psn', ops') = send_segments-qp left (idx + 1) (offset + length payload) s' bound in
      (
        psn'
            ∙ ap (λ k. advance_psn k left) psn
            ∙ advance_psn-advance_psn s.qp.sq_psn 1 left
            ∙ ap (advance_psn s.qp.sq_psn) (one_more left),
        ops' ∙ ops,
      )
