-- ===== src/Rdma/SendRecv/Delivery.antt =====
-- A SEND message, from its sender's packets to its receiver's completion.

use smart_nic.Rdma.SendRecv.Sequence.{can_receive-state}
use smart_nic.Rdma.SendRecv.Segments.{builders, one_more}
use smart_nic.Rdma.Transfer.Segments.{join}
use smart_nic.Rdma.SendRecv.Packets.{get_send_opcode-IsListed}
use smart_nic.Rdma.Packet.RoundTrip.{read_by}
use smart_nic.Rdma.SendRecv.Steps.{
  Carries, Ready, completion, recv_payload-completes, recv_payload-goes_on, get_send_opcode-kind,
}
use smart_nic.Rdma.Psn.{mask_psn, psn_count, advance_psn, advance_psn-lt, advance_psn-advance_psn}
use smart_nic.Rdma.Opcode.{opcode_is_first, opcode_is_only}
use smart_nic.Rdma.Wqe.{RecvWqe, SendWqe}
use smart_nic.Rdma.QueuePair.Work.{can_receive}
use smart_nic.Rdma.Packet.Builder.{
  set_opcode, set_dest_qp, set_psn, set_pad_count, set_solicited_event, set_ack_request,
  set_payload, set_immediate, new_builder, RdmaPacketBuilder,
}
use smart_nic.Rdma.Packet.Parser.{RdmaPacketParser}
use smart_nic.Rdma.SendRecv.{SendRecvProcessor, RecvResult, RdmaCqe, RecvMessageState}
use smart_nic.Rdma.SendRecv.Process.{
  process_recv_packet, recv_checked, recv_started, is_send, recv_state, recv_payload, begin_recv,
}
use smart_nic.Rdma.SendRecv.Generate.{send_packet, is_send_imm}
use smart_nic.Rdma.Transfer.{Site}
use smart_nic.Base.{
  true, false, refl, none, some, List, ◌∷◌, ◌≡◌, [], ◌||◌, arith, ℕ, ◌<◌, ◌==◌, sub32, ◌%◌, ◌^◌,
  if-cases, ◌&&◌, map, ◌+◌, length, suc, Bool, sym, ap, ◌++◌, subst, ◌∙◌, length-append,
}

-- The receiver is given packet after packet.
abbrev pub deliver :
    Site SendRecvProcessor → List RdmaPacketParser → List RecvResult × Site SendRecvProcessor
deliver s [] = ([], s)
deliver s (p ∷ ps) =
    let (r, s') = process_recv_packet s p in let (rs, s'') = deliver s' ps in (r ∷ rs, s'')

-- Every packet is accepted, and the last one, and no other, completes the message.
abbrev pub Completes : List RecvResult → RdmaCqe → Type 0
Completes [] c = ⊥
Completes (r ∷ []) c = (r.success ≡ true) × (r.is_message_complete ≡ true) × (r.cqe ≡ some c)
Completes (r ∷ r' ∷ rs) c =
    (r.success ≡ true) × (r.is_message_complete ≡ false) × (r.cqe ≡ none) × Completes (r' ∷ rs) c

pub send_packet-Carries :
    (wqe : SendWqe) (dest count idx psn : ℕ) (payload : List ℕ) (p : RdmaPacketParser)
    → psn < psn_count
    → Carries
        (read_by (send_packet wqe dest count idx psn payload) p)
        (idx == 0)
        (idx == sub32 count 1)
        (is_send_imm wqe.opcode)
        psn
        payload
        wqe.immediate_data
unfolding send_packet is_send_imm set_opcode set_dest_qp set_psn set_pad_count mask_psn
    set_solicited_event set_ack_request set_payload set_immediate new_builder
send_packet-Carries wqe dest count idx psn payload p small =
    let imm = is_send_imm wqe.opcode in
    let last = idx == sub32 count 1 in
    let variant = (get_send_opcode-IsListed (idx == 0) last imm).1 in
    let masked : psn % 2 ^ 24 ≡ psn = omega (arith, small) in
    if-cases
      (λ (b : RdmaPacketBuilder).
        Carries (read_by b p) (idx == 0) last imm psn payload wqe.immediate_data)
      (imm && last) _ _
      (λ e. record {
        opcode_is = refl;
        psn_is = masked;
        payload_is = refl;
        has_immediate_is = variant;
        immediate_is = λ _. rw variant (rw e refl);
      })
      (λ e. record {
        opcode_is = refl;
        psn_is = masked;
        payload_is = refl;
        has_immediate_is = variant;
        immediate_is = λ h. absurd (ground (arith, e, h));
      })

process-continues :
    (d : Site SendRecvProcessor) (p : RdmaPacketParser)
    → is_send p.bth.opcode ≡ true
    → (opcode_is_first p.bth.opcode || opcode_is_only p.bth.opcode) ≡ false
    → can_receive d.qp ≡ true
    → p.bth.psn ≡ d.qp.rq_psn
    → (recv_state d).in_progress ≡ true
    → (recv_state d).expected_psn ≡ p.bth.psn
    → process_recv_packet d p ≡ recv_payload d p (recv_state d)
unfolding process_recv_packet recv_checked
process-continues d p sends starts able here started expected =
    ground (arith, sends, starts, able, here, started, expected)

pub process-starts :
    (d : Site SendRecvProcessor) (p : RdmaPacketParser) (w : RecvWqe) (ws : List RecvWqe)
    → is_send p.bth.opcode ≡ true
    → (opcode_is_first p.bth.opcode || opcode_is_only p.bth.opcode) ≡ true
    → can_receive d.qp ≡ true
    → p.bth.psn ≡ d.qp.rq_psn
    → d.qp.recv_queue ≡ w ∷ ws
    → process_recv_packet d p
      ≡ recv_payload
          (record d { qp = record (d.qp) { recv_queue = ws } })
          p
          (begin_recv (recv_state d) w p.bth.psn)
unfolding process_recv_packet recv_started recv_checked begin_recv
process-starts d p w ws sends starts able here posted =
    let same : (p.bth.psn == d.qp.rq_psn) ≡ true = ground (arith, here) in
    rw sends (rw able (rw same (rw starts (rw posted (rw starts refl)))))

own_payload :
    (q : RdmaPacketParser) (f l l' i : Bool) (psn : ℕ) (payload : List ℕ) (immediate : ℕ)
    → Carries q f l i psn payload immediate
    → l ≡ l'
    → Carries q f l' i psn q.payload immediate
own_payload q f l l' i psn payload immediate c e =
    subst (λ k. Carries q f k i psn q.payload immediate) e
      (record {
        opcode_is = c.opcode_is;
        psn_is = c.psn_is;
        payload_is = refl;
        has_immediate_is = c.has_immediate_is;
        immediate_is = c.immediate_is;
      })

own_room :
    (d : Site SendRecvProcessor) (st : RecvMessageState) (w : RecvWqe) (got : ℕ)
    (payload payload' : List ℕ) (n left : ℕ)
    → Ready d st w got n
    → payload' ≡ payload
    → n ≡ length payload + left
    → Ready d st w got (length payload' + left)
own_room d st w got payload payload' n left ready e split = rw e (rw (sym split) ready)

-- The parsers of a message's packets.
abbrev pub parsers :
    SendWqe → ℕ → ℕ → RdmaPacketParser → ℕ → ℕ → List (List ℕ) → List RdmaPacketParser
parsers wqe dest count p idx psn cs = map (λ b. read_by b p) (builders wqe dest count idx psn cs)

-- A packet in front of others that complete the message.
deliver_more :
    (r : RecvResult) (d : Site SendRecvProcessor) (p : RdmaPacketParser)
    (ps : List RdmaPacketParser) (x : RecvResult × Site SendRecvProcessor) (c : RdmaCqe)
    → process_recv_packet d p ≡ x
    → r.success ≡ true
    → r.is_message_complete ≡ false
    → r.cqe ≡ none
    → Completes (x.0 ∷ (deliver x.1 ps).0) c
    → Completes (r ∷ (deliver d (p ∷ ps)).0) c
deliver_more r d p ps x c e ok incomplete nothing rest =
    subst (λ (y : RecvResult × Site SendRecvProcessor). Completes (r ∷ y.0 ∷ (deliver y.1 ps).0) c)
      (sym e) (ok, incomplete, nothing, rest)

module _ (wqe : SendWqe) (w : RecvWqe) (dest count : ℕ) (p : RdmaPacketParser)
    (bound : count < 2 ^ 32) where
  -- The packets from one on whose payload is to be written.
  pub from_payload :
      (c : List ℕ) (cs : List (List ℕ)) (idx psn got : ℕ) (d : Site SendRecvProcessor)
      (st : RecvMessageState)
      → idx + 1 + length cs ≡ count
      → psn < psn_count
      → can_receive d.qp ≡ true
      → d.qp.rq_psn ≡ psn
      → Ready d st w got (length c + length (join cs))
      → let (r, d') = recv_payload d (read_by (send_packet wqe dest count idx psn c) p) st in
        let (rs, d'') = deliver d' (parsers wqe dest count p (idx + 1) (advance_psn psn 1) cs) in
        Completes (r ∷ rs) (
          completion w d.qp.qp_number
            (is_send_imm wqe.opcode)
            wqe.immediate_data
            (got + (length c + length (join cs))))
        × (d''.qp.rq_psn ≡ advance_psn psn (suc (length cs)))
  unfolding join
  from_payload c [] idx psn got d st place small able here ready =
      let q = read_by (send_packet wqe dest count idx psn c) p in
      let carried = send_packet-Carries wqe dest count idx psn c p small in
      let last : (idx == sub32 count 1) ≡ true = ground (arith, place, bound) in
      let room = own_room d st w got c q.payload _ 0 ready carried.payload_is refl in
      let (ok, complete, cqe, moved) =
        recv_payload-completes d st w got 0 q room psn (idx == 0) (is_send_imm wqe.opcode)
          wqe.immediate_data (own_payload q _ _ true _ psn c _ carried last) in
      let size : got + length q.payload ≡ got + (length c + 0) =
        omega (arith, ap length carried.payload_is) in
      ((ok, complete, rw size at cqe), moved ∙ ap (λ k. advance_psn k 1) here)
  from_payload c (c' ∷ cs) idx psn got d st place small able here ready =
      let q = read_by (send_packet wqe dest count idx psn c) p in
      let next = advance_psn psn 1 in
      let q' = read_by (send_packet wqe dest count (idx + 1) next c') p in
      let imm = is_send_imm wqe.opcode in
      let carried = send_packet-Carries wqe dest count idx psn c p small in
      let carried' =
        send_packet-Carries wqe dest count (idx + 1) next c' p (advance_psn-lt psn 1) in
      let last : (idx == sub32 count 1) ≡ false = ground (arith, place, bound) in
      let left = length (c' ++ join cs) in
      let room = own_room d st w got c q.payload _ left ready carried.payload_is refl in
      let (ok, incomplete, nothing, ready', expected, moved, kept, number) =
        recv_payload-goes_on d st w got left q room psn (idx == 0) imm wqe.immediate_data
          (own_payload q _ _ false _ psn c _ carried last) in
      let d' = (recv_payload d q st).1 in
      let (sends, starts, _) =
        get_send_opcode-kind (idx + 1 == 0) (idx + 1 == sub32 count 1)
          (imm && (idx + 1 == sub32 count 1)) in
      let able' : can_receive d'.qp ≡ true = can_receive-state d.qp d'.qp kept able in
      let here' : d'.qp.rq_psn ≡ next = moved ∙ ap (λ k. advance_psn k 1) here in
      let step : process_recv_packet d' q' ≡ recv_payload d' q' (recv_state d') =
        process-continues d' q' (rw carried'.opcode_is sends)
          (rw carried'.opcode_is (starts ∙ ground arith)) able' (carried'.psn_is ∙ sym here')
          ready'.started (expected ∙ sym carried'.psn_is) in
      let split = length-append c' (join cs) in
      let (rest, moved') =
        from_payload c' cs (idx + 1) next (got + length q.payload) d' (recv_state d')
          (omega (arith, place)) (advance_psn-lt psn 1) able' here' (rw split at ready') in
      let total : got + length q.payload + (length c' + length (join cs))
          ≡ got + (length c + length (c' ++ join cs)) =
        omega (arith, split, ap length carried.payload_is) in
      let same : completion w d'.qp.qp_number imm wqe.immediate_data
            (got + length q.payload + (length c' + length (join cs)))
          ≡ completion w d.qp.qp_number imm wqe.immediate_data
              (got + (length c + length (c' ++ join cs))) =
        rw number (rw total refl) in
      let far : advance_psn next (suc (length cs)) ≡ advance_psn psn (suc (suc (length cs))) =
        advance_psn-advance_psn psn 1 _ ∙ ap (advance_psn psn) (one_more (suc (length cs))) in
      let ps = parsers wqe dest count p (idx + 1 + 1) (advance_psn next 1) cs in
      let after =
        ap (λ (y : RecvResult × Site SendRecvProcessor). (deliver y.1 ps).1.qp.rq_psn) step in
      (
        deliver_more (recv_payload d q st).0 d' q' ps _ _ step ok incomplete nothing
            (rw same at rest),
        after ∙ moved' ∙ far,
      )
