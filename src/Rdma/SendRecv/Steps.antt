-- ===== src/Rdma/SendRecv/Steps.antt =====
-- One packet of a SEND message at a receiver with room for it.

use smart_nic.Rdma.Psn.{advance_psn}
use smart_nic.Rdma.QueuePair.Work.{record_packet_received}
use smart_nic.Rdma.QueuePair.Reliable.{advance_recv_psn}
use smart_nic.Base.Assoc.{lookup-insert, lookup, insert}
use smart_nic.Rdma.Transfer.Sgl.{Plain, Within, InFirst, WritesAll, room, write_to_sgl-all}
use smart_nic.Rdma.Wqe.{RecvWqe, success, WqeOpcode}
use smart_nic.Rdma.Opcode.{opcode_is_first, opcode_is_only, opcode_is_last}
use smart_nic.Rdma.SendRecv.{SendRecvProcessor, RecvMessageState, RdmaCqe}
use smart_nic.Rdma.SendRecv.Process.{
  recv_state, is_send, put_state, recv_cqe, recv_payload, accept_payload,
}
use smart_nic.Rdma.SendRecv.Generate.{get_send_opcode}
use smart_nic.Rdma.Transfer.{Site, Written, write_to_sgl}
use smart_nic.Rdma.Packet.Parser.{RdmaPacketParser}
use smart_nic.Base.{
  true, false, refl, Bool, ℕ, List, ◌≡◌, ◌&&◌, length, ◌||◌, arith, ◌+◌, drop, ◌≤◌, ◌<◌, ◌^◌, some,
  none, ap, add32, if◌then◌else◌,
}

-- A parser that holds a packet of a SEND message: first or last or neither, of a message with an
-- immediate or without.
pub record Carries (p : RdmaPacketParser) (first last imm : Bool) (psn : ℕ) (payload : List ℕ)
    (immediate : ℕ) : Type 0 where
  pub opcode_is : p.bth.opcode ≡ get_send_opcode first last (imm && last)
  pub psn_is : p.bth.psn ≡ psn
  pub payload_is : p.payload ≡ payload
  pub has_immediate_is : p.has_immediate ≡ imm && last
  pub immediate_is : imm && last ≡ true → p.immediate ≡ immediate

-- A receiver that has room for `left` more bytes of a message that it received `got` bytes of.
pub record Ready (d : Site SendRecvProcessor) (st : RecvMessageState) (w : RecvWqe) (got left : ℕ)
    : Type 0 where
  pub plain : Plain d.host.host_memory
  pub within : Within (length d.host.host_memory.buffer) w.sgl
  pub wr_id_is : st.wr_id ≡ w.wr_id
  pub sgl_is : st.sgl ≡ w.sgl
  pub got_is : st.bytes_received ≡ got
  pub started : st.in_progress ≡ true
  pub no_immediate : st.has_immediate ≡ false
  pub immediate_zero : st.immediate_data ≡ 0
  pub first_in : InFirst (drop st.current_sge_idx w.sgl) st.sge_offset
  pub fits : left ≤ room (drop st.current_sge_idx w.sgl) st.sge_offset
  pub small : got + left < 2 ^ 32

pub get_send_opcode-kind :
    (f l i : Bool)
    → let o = get_send_opcode f l i in
      (is_send o ≡ true)
      × ((opcode_is_first o || opcode_is_only o) ≡ f)
      × ((opcode_is_last o || opcode_is_only o) ≡ l)
unfolding get_send_opcode is_send opcode_is_first opcode_is_only opcode_is_last
get_send_opcode-kind true true true = (refl, refl, refl)
get_send_opcode-kind true true false = (refl, refl, refl)
get_send_opcode-kind true false true = (refl, refl, refl)
get_send_opcode-kind true false false = (refl, refl, refl)
get_send_opcode-kind false true true = (refl, refl, refl)
get_send_opcode-kind false true false = (refl, refl, refl)
get_send_opcode-kind false false true = (refl, refl, refl)
get_send_opcode-kind false false false = (refl, refl, refl)

recv_state-put :
    (s : Site SendRecvProcessor) (st : RecvMessageState) → recv_state (put_state s st) ≡ st
unfolding recv_state put_state
recv_state-put s st =
    let key = s.qp.qp_number in
    let found : lookup key (insert key st s.processor.recv_states) ≡ some st =
      ground (arith, lookup-insert key key st s.processor.recv_states) in
    rw (found, recv_state) refl

-- The completion of a message of `n` bytes.
abbrev pub completion : RecvWqe → ℕ → Bool → ℕ → ℕ → RdmaCqe
completion w qp_number imm immediate n = record {
  wr_id = w.wr_id;
  status = success;
  opcode = if imm then WqeOpcode.send_imm else WqeOpcode.send;
  qp_number = qp_number;
  bytes_completed = n;
  immediate_data = if imm then immediate else 0;
  has_immediate = imm;
  is_send = false;
}

module _ (d : Site SendRecvProcessor) (st : RecvMessageState) (w : RecvWqe) (got left : ℕ)
    (p : RdmaPacketParser) (ready : Ready d st w got (length p.payload + left)) where
  abbrev written : Written
  written = write_to_sgl d.host.host_memory st.sgl p.payload st.current_sge_idx st.sge_offset

  abbrev site' : Site SendRecvProcessor
  site' = record d { host = record (d.host) { host_memory = written.memory } }

  abbrev state' : RecvMessageState
  state' = record st { current_sge_idx = written.sge_idx; sge_offset = written.sge_offset }

  all_written :
      WritesAll w.sgl d.host.host_memory
        (room (drop st.current_sge_idx w.sgl) st.sge_offset)
        (length p.payload)
        written
  all_written = rw ready.sgl_is (
      write_to_sgl-all d.host.host_memory w.sgl p.payload st.current_sge_idx st.sge_offset
        ready.plain ready.within ready.first_in (omega (arith, ready.fits)))

  recv_payload-accepts : recv_payload d p st ≡ accept_payload site' p state' (length p.payload)
  unfolding recv_payload
  recv_payload-accepts = ground (arith, all_written.0)

  -- What is accepted leaves room for the rest, and a place to go on from.
  pub recv_payload-goes_on :
      (psn : ℕ) (first imm : Bool) (immediate : ℕ)
      → Carries p first false imm psn p.payload immediate
      → let (r, d') = recv_payload d p st in
        (r.success ≡ true)
        × (r.is_message_complete ≡ false)
        × (r.cqe ≡ none)
        × Ready d' (recv_state d') w (got + length p.payload) left
        × ((recv_state d').expected_psn ≡ advance_psn psn 1)
        × (d'.qp.rq_psn ≡ advance_psn d.qp.rq_psn 1)
        × (d'.qp.state ≡ d.qp.state)
        × (d'.qp.qp_number ≡ d.qp.qp_number)
  unfolding accept_payload put_state advance_recv_psn record_packet_received write_to_sgl recv_state
  recv_payload-goes_on psn first imm immediate c =
      let o = p.bth.opcode in
      let (_, _, kind) = get_send_opcode-kind first false (imm && false) in
      let ends : (opcode_is_last o || opcode_is_only o) ≡ false = rw c.opcode_is kind in
      let none : p.has_immediate ≡ false = ground (arith, c.has_immediate_is) in
      let (count, plain, same, first_in, room) = all_written in
      rw recv_payload-accepts (
        rw ends (
          rw none (
            rw recv_state-put (
              refl,
              refl,
              refl,
              record {
                plain = plain;
                within = rw same ready.within;
                wr_id_is = ready.wr_id_is;
                sgl_is = ready.sgl_is;
                got_is = omega (arith, ready.got_is, ready.small);
                started = ready.started;
                no_immediate = ready.no_immediate;
                immediate_zero = ready.immediate_zero;
                first_in = first_in;
                fits = omega (arith, room, ready.fits);
                small = omega (arith, ready.small);
              },
              ap (λ k. advance_psn k 1) c.psn_is,
              refl,
              refl,
              refl,
            ))))

  -- The last packet completes the message.
  pub recv_payload-completes :
      (psn : ℕ) (first imm : Bool) (immediate : ℕ)
      → Carries p first true imm psn p.payload immediate
      → let (r, d') = recv_payload d p st in
        (r.success ≡ true)
        × (r.is_message_complete ≡ true)
        × (r.cqe ≡ some (completion w d.qp.qp_number imm immediate (got + length p.payload)))
        × (d'.qp.rq_psn ≡ advance_psn d.qp.rq_psn 1)
  unfolding accept_payload put_state advance_recv_psn record_packet_received write_to_sgl recv_cqe
  recv_payload-completes psn first imm immediate c =
      let o = p.bth.opcode in
      let (_, _, kind) = get_send_opcode-kind first true (imm && true) in
      let ends : (opcode_is_last o || opcode_is_only o) ≡ true = rw c.opcode_is kind in
      let has : p.has_immediate ≡ imm = ground (arith, c.has_immediate_is) in
      let total : add32 st.bytes_received (length p.payload) ≡ got + length p.payload =
        omega (arith, ready.got_is, ready.small) in
      rw recv_payload-accepts (
        rw ends (
          rw has (
            rw ready.wr_id_is (
              rw ready.no_immediate (
                rw ready.immediate_zero
                  (rw total (refl, refl, ground (arith, c.immediate_is), refl)))))))
