-- ===== src/Rdma/SendRecv/Message.antt =====
-- A whole SEND message: what its sender generates is taken by a receiver that waits for it.

use smart_nic.Rdma.SendRecv.Packets.{send_packet-IsWellFormed}
use smart_nic.Rdma.QueuePair.Reliable.{mtu_bytes, add_pending_operation}
use smart_nic.Rdma.SendRecv.Segments.{builders, send_segments-packets, send_segments-qp}
use smart_nic.Rdma.Packet.Builder.{build}
use smart_nic.Rdma.BitFields.{BitFields, IsLawful}
use smart_nic.Rdma.SendRecv.Sequence.{can_receive-state}
use smart_nic.Rdma.Packet.RoundTrip.{read_by, parse-build}
use smart_nic.Rdma.SendRecv.Generate.{
  is_send_imm, send_packet, generate_send_packets, is_send_wqe, begin_send,
}
use smart_nic.Rdma.Psn.{psn_count, advance_psn}
use smart_nic.Rdma.SendRecv.Steps.{Ready, completion, get_send_opcode-kind}
use smart_nic.Rdma.SendRecv.Delivery.{
  Completes, deliver, parsers, send_packet-Carries, process-starts, from_payload,
}
use smart_nic.Rdma.Transfer.Sgl.{Plain, Within, InFirst-zero, room}
use smart_nic.Rdma.Transfer.Segments.{
  join, chunks, packet_count-enough, mtu_bytes-pos, join-chunks, packet_count-lt,
}
use smart_nic.Rdma.SendRecv.Process.{process_recv_packet, begin_recv, recv_state}
use smart_nic.Rdma.QueuePair.Work.{can_receive}
use smart_nic.Rdma.Packet.Parser.{RdmaPacketParser, parse}
use smart_nic.Rdma.SendRecv.{SendRecvProcessor, RecvResult, RdmaCqe}
use smart_nic.Rdma.Wqe.{SendWqe, RecvWqe}
use smart_nic.Rdma.Transfer.{Site, read_from_sgl, calculate_packet_count}
use smart_nic.Base.{
  true, refl, ℕ, List, ◌<◌, ◌≡◌, ◌^◌, ◌∷◌, ◌+◌, length, ◌≤◌, subst, sym, arith, suc, ◌==◌, sub32,
  ◌&&◌, ◌∙◌, length-append, ap, ◌++◌, drop, map, zero, [], take,
}

-- A receiver that expects the number `psn`, and whose next receive request, `w`, has room for `n` bytes in
-- a plain memory.
pub record Awaits (d : Site SendRecvProcessor) (psn : ℕ) (w : RecvWqe) (ws : List RecvWqe) (n : ℕ)
    : Type 0 where
  pub able : can_receive d.qp ≡ true
  pub expects : d.qp.rq_psn ≡ psn
  pub posted : d.qp.recv_queue ≡ w ∷ ws
  pub plain : Plain d.host.host_memory
  pub within : Within (length d.host.host_memory.buffer) w.sgl
  pub fits : n ≤ room w.sgl 0
  pub small : n < 2 ^ 32

deliver_first :
    (d : Site SendRecvProcessor) (p : RdmaPacketParser) (ps : List RdmaPacketParser)
    (x : RecvResult × Site SendRecvProcessor) (c : RdmaCqe) (psn : ℕ)
    → process_recv_packet d p ≡ x
    → Completes (x.0 ∷ (deliver x.1 ps).0) c × ((deliver x.1 ps).1.qp.rq_psn ≡ psn)
    → Completes (deliver d (p ∷ ps)).0 c × ((deliver d (p ∷ ps)).1.qp.rq_psn ≡ psn)
deliver_first d p ps x c psn e =
    subst
      (λ (y : RecvResult × Site SendRecvProcessor).
        Completes (y.0 ∷ (deliver y.1 ps).0) c × ((deliver y.1 ps).1.qp.rq_psn ≡ psn))
      (sym e)

module _ (wqe : SendWqe) (w : RecvWqe) (ws : List RecvWqe) (dest count : ℕ) (p : RdmaPacketParser)
    (bound : count < 2 ^ 32) where
  begin-Ready :
      (d : Site SendRecvProcessor) (psn n : ℕ)
      → Awaits d psn w ws n
      → (at : ℕ)
      → Ready
          (record d { qp = record (d.qp) { recv_queue = ws } })
          (begin_recv (recv_state d) w at)
          w
          0
          n
  unfolding begin_recv
  begin-Ready d psn n a at = record {
    plain = a.plain;
    within = a.within;
    wr_id_is = refl;
    sgl_is = refl;
    got_is = refl;
    started = refl;
    no_immediate = refl;
    immediate_zero = refl;
    first_in = InFirst-zero w.sgl;
    fits = a.fits;
    small = omega (arith, a.small);
  }

  deliver-message :
      (c : List ℕ) (cs : List (List ℕ)) (psn : ℕ) (d : Site SendRecvProcessor)
      → 1 + length cs ≡ count
      → psn < psn_count
      → Awaits d psn w ws (length (join (c ∷ cs)))
      → let (rs, d') = deliver d (parsers wqe dest count p 0 psn (c ∷ cs)) in
        Completes rs (
          completion w d.qp.qp_number
            (is_send_imm wqe.opcode)
            wqe.immediate_data
            (length (join (c ∷ cs))))
        × (d'.qp.rq_psn ≡ advance_psn psn (suc (length cs)))
  unfolding join
  deliver-message c cs psn d place small a =
      let q = read_by (send_packet wqe dest count 0 psn c) p in
      let ps = parsers wqe dest count p 1 (advance_psn psn 1) cs in
      let carried = send_packet-Carries wqe dest count 0 psn c p small in
      let (sends, starts, _) =
        get_send_opcode-kind true (0 == sub32 count 1)
          (is_send_imm wqe.opcode && (0 == sub32 count 1)) in
      let step =
        process-starts d q w ws (rw carried.opcode_is sends) (rw carried.opcode_is starts) a.able
          (carried.psn_is ∙ sym a.expects) a.posted in
      let ready = rw (length-append c (join cs)) at (begin-Ready d psn _ a q.bth.psn) in
      let d0 : Site SendRecvProcessor = record d { qp = record (d.qp) { recv_queue = ws } } in
      let able : can_receive d0.qp ≡ true = can_receive-state d.qp d0.qp refl a.able in
      let result =
        from_payload wqe w dest count p bound c cs 0 psn 0 d0
          (begin_recv (recv_state d) w q.bth.psn) (omega (arith, place)) small able a.expects
          ready in
      let total : 0 + (length c + length (join cs)) ≡ length (c ++ join cs) =
        omega (arith, length-append c (join cs)) in
      deliver_first d q ps _ _ _ step (rw total at result)

length-chunks : (mtu n : ℕ) (xs : List ℕ) → length (chunks mtu n xs) ≡ n
unfolding chunks
length-chunks mtu zero xs = refl
length-chunks mtu (suc n) xs = ap suc (length-chunks mtu n (drop mtu xs))

chunks-cons :
    (mtu n : ℕ) (xs : List ℕ)
    → 0 < n
    → (c : List ℕ) × (cs : List (List ℕ)) × (chunks mtu n xs ≡ c ∷ cs) × (1 + length cs ≡ n)
unfolding chunks
chunks-cons mtu zero xs h = absurd (omega (arith, h))
chunks-cons mtu (suc n) xs h = (
  take mtu xs,
  chunks mtu n (drop mtu xs),
  refl,
  omega (arith, length-chunks mtu n (drop mtu xs)),
)

module _ (bits : BitFields) (law : IsLawful bits) (p : RdmaPacketParser) (wqe : SendWqe)
    (imm : wqe.immediate_data < 2 ^ 32) where
  abbrev read_packet : List ℕ → RdmaPacketParser
  read_packet bytes = (parse bits p bytes).1

  parsed-builders :
      (dest count idx psn : ℕ) (cs : List (List ℕ))
      → map read_packet (map (build bits) (builders wqe dest count idx psn cs))
        ≡ parsers wqe dest count p idx psn cs
  parsed-builders dest count idx psn [] = refl
  parsed-builders dest count idx psn (c ∷ cs) =
      let b = send_packet wqe dest count idx psn c in
      let first : (parse bits p (build bits b)).1 ≡ read_by b p =
        ap (λ r. r.1)
          (parse-build bits p b law (send_packet-IsWellFormed wqe dest count idx psn c imm)) in
      let rest = parsed-builders dest count (idx + 1) (advance_psn psn 1) cs in cc

  generate-nonempty :
      (s : Site SendRecvProcessor)
      → is_send_wqe wqe.opcode ≡ true
      → length (read_from_sgl s.host wqe.sgl wqe.local_lkey).0 ≡ wqe.total_length
      → 0 < wqe.total_length
      → s.qp.sq_psn < psn_count
      → let sent = generate_send_packets bits s wqe in
        let mtu = mtu_bytes s.qp in
        let count = calculate_packet_count wqe.total_length mtu in
        (sent.packets
          ≡ map (build bits) (
              builders wqe s.qp.dest_qp_number count 0 s.qp.sq_psn
                (chunks mtu count (read_from_sgl s.host wqe.sgl wqe.local_lkey).0)))
        × (sent.site.qp.sq_psn ≡ advance_psn s.qp.sq_psn count)
  unfolding generate_send_packets add_pending_operation
  generate-nonempty s sends read nonempty small =
      let (bytes, host) = read_from_sgl s.host wqe.sgl wqe.local_lkey in
      let s1 = begin_send (record s { host = host }) in
      let mtu = mtu_bytes s.qp in
      let count = calculate_packet_count wqe.total_length mtu in
      let packets = send_segments-packets bits wqe bytes mtu count count 0 0 s1 in
      let moved = (send_segments-qp bits wqe bytes mtu count count 0 0 s1 small).0 in
      ground (arith, sends, read, nonempty, packets, moved)

  -- A nonempty SEND whose data could be read, parsed packet by packet and given to a receiver that expects
  -- its first number and has a receive request with room for it, in a memory without translator and fault
  -- injector: every packet is accepted, the last one, and no other, completes the message, with the
  -- request's id, the data's length and the immediate, and sender and receiver agree on the next number.
  -- The immediate is a 32-bit number, and the length and the MTU add up to less than 2^32.
  pub send-delivered :
      (s d : Site SendRecvProcessor) (w : RecvWqe) (ws : List RecvWqe)
      → is_send_wqe wqe.opcode ≡ true
      → length (read_from_sgl s.host wqe.sgl wqe.local_lkey).0 ≡ wqe.total_length
      → 0 < wqe.total_length
      → wqe.total_length + mtu_bytes s.qp < 2 ^ 32
      → s.qp.sq_psn < psn_count
      → Awaits d s.qp.sq_psn w ws wqe.total_length
      → let sent = generate_send_packets bits s wqe in
        let (rs, d') = deliver d (map (λ bytes. (parse bits p bytes).1) sent.packets) in
        Completes rs
          (completion w d.qp.qp_number (is_send_imm wqe.opcode) wqe.immediate_data wqe.total_length)
        × (d'.qp.rq_psn ≡ sent.site.qp.sq_psn)
  send-delivered s d w ws sends read nonempty small psn a =
      let bytes = (read_from_sgl s.host wqe.sgl wqe.local_lkey).0 in
      let mtu = mtu_bytes s.qp in
      let count = calculate_packet_count wqe.total_length mtu in
      let dest = s.qp.dest_qp_number in
      let (enough, _, more) =
        packet_count-enough wqe.total_length mtu (mtu_bytes-pos s.qp) nonempty small in
      let (c, cs, cut, place) = chunks-cons mtu count bytes more in
      let (packets, next) = generate-nonempty s sends read nonempty psn in
      let parsed : map read_packet (generate_send_packets bits s wqe).packets
          ≡ parsers wqe dest count p 0 s.qp.sq_psn (c ∷ cs) =
        ap (map read_packet)
          (packets ∙ ap (λ r. map (build bits) (builders wqe dest count 0 s.qp.sq_psn r)) cut)
        ∙ parsed-builders dest count 0 s.qp.sq_psn (c ∷ cs) in
      let whole : length (join (c ∷ cs)) ≡ wqe.total_length =
        ap length (ap join (sym cut) ∙ join-chunks mtu count bytes (omega (arith, read, enough)))
        ∙ read in
      let (complete, moved) =
        deliver-message wqe w ws dest count p (packet_count-lt wqe.total_length mtu) c cs
          s.qp.sq_psn d place psn (rw whole a) in
      let numbers : advance_psn s.qp.sq_psn (suc (length cs))
          ≡ (generate_send_packets bits s wqe).site.qp.sq_psn =
        ap (advance_psn s.qp.sq_psn) (omega (arith, place)) ∙ sym next in
      rw parsed (rw whole at complete, moved ∙ numbers)
