-- ===== src/Rdma/Engine/Posting.antt =====
-- `post_send` and `post_recv` of `RdmaEngine` of src/rocev2/engine.cpp. The `default` of the switch on the opcode
-- is left out: `WqeOpcode` has the five enumerators only.
use smart_nic.Rdma.Wqe.{SendWqe, RecvWqe, WqeOpcode}
use smart_nic.Rdma.Reliability.{add_pending}
use smart_nic.Rdma.Read.Request.{generate_read_request}
use smart_nic.Rdma.Write.Generate.{generate_write_packets}
use smart_nic.Rdma.SendRecv.Generate.{generate_send_packets, is_send_wqe}
use smart_nic.Base.Assoc.{insert, lookup}
use smart_nic.Rdma.Engine.{queue_outgoing_packet, RdmaEngine, RdmaQueuePair, put_qp, count_error}
use smart_nic.Rdma.BitFields.{BitFields}
use smart_nic.Rdma.Psn.{mask_psn}
use smart_nic.Rdma.QueuePair.Work.{can_send}
use smart_nic.Base.{
  true, false, refl, none, some, [], ◌∷◌, List, ℕ, if◌then◌else◌, add64, Bool, ltb, length, not,
  sub32, ◌==◌, add32,
}
use smart_nic.Rdma.QueuePair.Work
pub mod Generators
pub mod Tracking

-- What a processor leaves: the packets, the engine without the queue pair, and the queue pair.
pub record Generated (D : Type 0) : Type 0 where
  pub packets : List (List ℕ)
  pub engine : RdmaEngine D
  pub qp : RdmaQueuePair

-- The PSN of the last of `n` packets.
unfoldable pub last_psn : ℕ → ℕ → ℕ
unfolding mask_psn
last_psn start_psn n = if ltb 1 n then mask_psn (sub32 (add32 start_psn n) 1) else start_psn

module _ {D : Type 0} (bits : BitFields) where
  unfoldable pub by_send : RdmaEngine D → RdmaQueuePair → SendWqe → Generated D
  unfolding generate_send_packets
  by_send e q wqe =
      let sent =
        generate_send_packets bits
          (record { processor = e.send_recv_processor; host = e.host; qp = q }) wqe in
      record {
        packets = sent.packets;
        engine = record e { send_recv_processor = sent.site.processor; host = sent.site.host };
        qp = sent.site.qp;
      }

  unfoldable pub by_write : RdmaEngine D → RdmaQueuePair → SendWqe → Generated D
  unfolding generate_write_packets
  by_write e q wqe =
      let sent =
        generate_write_packets bits
          (record { processor = e.write_processor; host = e.host; qp = q }) wqe in
      record {
        packets = sent.packets;
        engine = record e { write_processor = sent.site.processor; host = sent.site.host };
        qp = sent.site.qp;
      }

  unfoldable pub by_read : RdmaEngine D → RdmaQueuePair → SendWqe → Generated D
  unfolding generate_read_request
  by_read e q wqe =
      let sent =
        generate_read_request bits (record { processor = e.read_processor; host = e.host; qp = q })
          wqe in
      record {
        packets = sent.packets;
        engine = record e { read_processor = sent.site.processor; host = sent.site.host };
        qp = sent.site.qp;
      }

  -- The switch on the opcode.
  unfoldable pub generate : RdmaEngine D → RdmaQueuePair → SendWqe → WqeOpcode → Generated D
  unfolding by_send by_write by_read
  generate e q wqe WqeOpcode.send = by_send e q wqe
  generate e q wqe WqeOpcode.send_imm = by_send e q wqe
  generate e q wqe WqeOpcode.rdma_write = by_write e q wqe
  generate e q wqe WqeOpcode.rdma_write_imm = by_write e q wqe
  generate e q wqe WqeOpcode.rdma_read = by_read e q wqe

module _ {D : Type 0} where
  -- The loop over the packets.
  unfoldable pub queue_packets : RdmaEngine D → RdmaQueuePair → List (List ℕ) → RdmaEngine D
  unfolding queue_outgoing_packet
  queue_packets e q [] = e
  queue_packets e q (packet ∷ packets) =
      let counted = record e {
        stats = record (e.stats) { bytes_sent = add64 (e.stats.bytes_sent) (length packet) };
      } in
      queue_packets (queue_outgoing_packet counted packet q) q packets

  -- After the switch; the queue pair `key` has the changes of the processor.
  unfoldable pub track : ℕ → ℕ → SendWqe → Generated D → Bool × RdmaEngine D
  unfolding insert last_psn add_pending queue_packets
  track key start_psn wqe g =
      let e = put_qp g.engine key g.qp in
      let n = length g.packets in
      let tracked = record e {
        reliability_manager =
            add_pending e.reliability_manager key start_psn (last_psn start_psn n) wqe.wr_id
              wqe.opcode 0;
      } in
      let queued = queue_packets tracked g.qp g.packets in
      if n == 0 then (false, count_error e) else (
        true,
        record queued {
          stats = record (queued.stats) {
            send_wqes_posted = add64 (queued.stats.send_wqes_posted) 1;
            packets_sent = add64 (queued.stats.packets_sent) n;
          };
        },
      )

  unfoldable pub post_to :
      BitFields → RdmaEngine D → ℕ → SendWqe → RdmaQueuePair → Bool × RdmaEngine D
  unfolding can_send generate track
  post_to bits e key wqe q =
      if not (can_send q)
      then (false, count_error e)
      else track key q.sq_psn wqe (generate bits e q wqe wqe.opcode)

  unfoldable pub post_send : BitFields → RdmaEngine D → ℕ → SendWqe → Bool × RdmaEngine D
  unfolding post_to lookup
  post_send bits e qp_number wqe =
      let found : Bool × RdmaEngine D = elim (lookup qp_number e.qps) [
        | none ↦ (false, e)
        | some q ↦ post_to bits e qp_number wqe q
      ] in
      if not e.config.enabled then (false, e) else found

  -- With what the queue pair answered.
  unfoldable pub posted_recv : RdmaEngine D → ℕ → Bool × RdmaQueuePair → Bool × RdmaEngine D
  posted_recv e key (done, q) =
      let e' = put_qp e key q in
      if not done then (false, count_error e') else (
        true,
        record e' {
          stats = record (e'.stats) { recv_wqes_posted = add64 (e'.stats.recv_wqes_posted) 1 };
        },
      )

  unfoldable pub post_recv : RdmaEngine D → ℕ → RecvWqe → Bool × RdmaEngine D
  unfolding Work.post_recv posted_recv lookup
  post_recv e qp_number wqe =
      let found : Bool × RdmaEngine D = elim (lookup qp_number e.qps) [
        | none ↦ (false, e)
        | some q ↦ posted_recv e qp_number (Work.post_recv q wqe)
      ] in
      if not e.config.enabled then (false, e) else found
