-- ===== src/Rdma/Engine/Posting/Tracking.antt =====
-- `post_send` of src/rocev2/engine.cpp keeps the record of what is sent: the pending operations are the messages
-- that were posted, one behind the other.
use smart_nic.Rdma.Engine.Posting.Generators.{generate-Numbers, Numbers}
use smart_nic.Rdma.Engine.References.Processors.{Keeps}
use smart_nic.Rdma.QueuePair.{roce_udp_port}
use smart_nic.Base.Assoc.{lookup, lookup-insert_self}
use smart_nic.Rdma.Psn.{advance_psn, psn_count, advance_psn-lt, advance_psn-advance_psn, mask_psn}
use smart_nic.Rdma.Reliability.{pending_of, add_pending, ReliabilityManager, new_pending}
use smart_nic.Rdma.Engine.Posting.{
  last_psn, queue_packets, generate, by_send, by_write, by_read, BitFields, WqeOpcode, post_send,
  post_to, track, Generated,
}
use smart_nic.Rdma.Wqe.{SendWqe}
use smart_nic.Rdma.Engine.{RdmaEngine, RdmaQueuePair, queue_outgoing_packet, put_qp}
use smart_nic.Base.{
  true, refl, some, [], ◌∷◌, ℕ, List, ◌<◌, ◌++◌, ◌≡◌, arith, ◌+◌, length, add64, length-append, ◌-◌,
  Bool-cases, inr, inl, ◌==◌, ◌∙◌, sym, ap,
}
use smart_nic.Rdma.Reliability.Cumulative.{Message, posted, span}

-- On the queue pair `key`, the messages `ms` are pending, sent from `base` on, and the next sequence number is the
-- one behind them.
pub record Tracks {D : Type 0} (e : RdmaEngine D) (key base : ℕ) (q : RdmaQueuePair)
    (ms : List Message) : Type 0 where
  pub found : lookup key e.qps ≡ some q
  pub pending : pending_of e.reliability_manager key ≡ posted base ms
  pub next : q.sq_psn ≡ advance_psn base (span ms)

abbrev pub message_of : SendWqe → ℕ → Message
message_of wqe n = record { packets = n; wr_id = wqe.wr_id; opcode = wqe.opcode }

pub posted-append :
    (base : ℕ) (ms : List Message) (m : Message)
    → base < psn_count
    → posted base (ms ++ (m ∷ [])) ≡ posted base ms ++ posted (advance_psn base (span ms)) (m ∷ [])
unfolding posted span
posted-append base [] m b =
    let start : advance_psn base 0 ≡ base = unfold advance_psn in omega arith in rw start refl
posted-append base (k ∷ ms) m b =
    rw
      (
        posted-append (advance_psn base k.packets) ms m (advance_psn-lt base k.packets),
        advance_psn-advance_psn base k.packets (span ms),
      )
      refl

pub span-append : (ms : List Message) (m : Message) → span (ms ++ (m ∷ [])) ≡ span ms + m.packets
unfolding span
span-append [] m = omega arith
span-append (k ∷ ms) m = omega (arith, span-append ms m)

last_psn-advance : (psn n : ℕ) → psn < psn_count → 0 < n → last_psn psn n ≡ advance_psn psn (n - 1)
unfolding last_psn advance_psn mask_psn
last_psn-advance psn n b p = ground arith

pending_of-insert :
    (m : ReliabilityManager) (key start_psn end_psn wr_id : ℕ) (opcode : WqeOpcode)
    → pending_of (add_pending m key start_psn end_psn wr_id opcode 0) key
      ≡ pending_of m key ++ (new_pending start_psn end_psn wr_id opcode 0 ∷ [])
unfolding pending_of add_pending
pending_of-insert m key start_psn end_psn wr_id opcode =
    let ops = pending_of m key ++ (new_pending start_psn end_psn wr_id opcode 0 ∷ []) in
    rw (pending_of, lookup-insert_self key ops m.pending_ops) refl

pending_behind :
    (m : ReliabilityManager) (key base start n : ℕ) (ms : List Message) (wqe : SendWqe)
    → base < psn_count
    → 0 < n
    → start ≡ advance_psn base (span ms)
    → pending_of m key ≡ posted base ms
    → pending_of (add_pending m key start (last_psn start n) wqe.wr_id wqe.opcode 0) key
      ≡ posted base (ms ++ (message_of wqe n ∷ []))
unfolding posted
pending_behind m key base start n ms wqe b p at old =
    let small : start < psn_count = rw at (advance_psn-lt base (span ms)) in
    let last = last_psn-advance start n small p in
    pending_of-insert m key start (last_psn start n) wqe.wr_id wqe.opcode
    ∙ (rw (old, last, at) (sym (posted-append base ms (message_of wqe n) b)))

module _ {D : Type 0} where
  -- The queue only grows, at its end, and nothing else changes but the counters.
  pub queue_packets-Queues :
      (e : RdmaEngine D) (q : RdmaQueuePair) (packets : List (List ℕ))
      → let e' = queue_packets e q packets in
        (e'.reliability_manager ≡ e.reliability_manager)
        × (e'.qps ≡ e.qps)
        × (e'.cqs ≡ e.cqs)
        × (e'.config ≡ e.config)
        × (length e'.outgoing_packets ≡ length e.outgoing_packets + length packets)
  unfolding queue_packets queue_outgoing_packet
  queue_packets-Queues e q [] = (refl, refl, refl, refl, omega arith)
  queue_packets-Queues e q (packet ∷ packets) =
      let next = record e {
        stats = record (e.stats) { bytes_sent = add64 (e.stats.bytes_sent) (length packet) };
      } in
      let rest = queue_packets-Queues (queue_outgoing_packet next packet q) q packets in
      (
        rest.0,
        rest.1,
        rest.2,
        rest.3,
        omega (
          arith,
          rest.4,
          length-append e.outgoing_packets (
              record {
                bytes = packet;
                dest_ip = q.dest_ip;
                dest_port = roce_udp_port;
                src_port = 0;
              }
              ∷ []),
        ),
      )

  pub generate-Leaves :
      (bits : BitFields) (e : RdmaEngine D) (q : RdmaQueuePair) (wqe : SendWqe) (opcode : WqeOpcode)
      → let e' = (generate bits e q wqe opcode).engine in
        (e'.reliability_manager ≡ e.reliability_manager)
        × (e'.qps ≡ e.qps)
        × (e'.cqs ≡ e.cqs)
        × (e'.config ≡ e.config)
        × (e'.outgoing_packets ≡ e.outgoing_packets)
  unfolding generate by_send by_write by_read
  generate-Leaves bits e q wqe WqeOpcode.rdma_read = (refl, refl, refl, refl, refl)
  generate-Leaves bits e q wqe _ = (refl, refl, refl, refl, refl)

  -- What a successful post leaves: `n` packets, sent and pending behind the messages `ms`.
  pub record Posts (e : RdmaEngine D) (key base : ℕ) (q : RdmaQueuePair) (ms : List Message)
      (wqe : SendWqe) (e' : RdmaEngine D) : Type 0 where
    pub n : ℕ
    pub q' : RdmaQueuePair
    pub packets : 0 < n
    pub kept : Keeps q q'
    pub tracked : Tracks e' key base q' (ms ++ (message_of wqe n ∷ []))
    pub same_cqs : e'.cqs ≡ e.cqs
    pub same_config : e'.config ≡ e.config
    pub queued : length e'.outgoing_packets ≡ length e.outgoing_packets + n

  post_send-track :
      (bits : BitFields) (e : RdmaEngine D) (key : ℕ) (q : RdmaQueuePair) (wqe : SendWqe)
      → lookup key e.qps ≡ some q
      → (post_send bits e key wqe).0 ≡ true
      → post_send bits e key wqe ≡ track key q.sq_psn wqe (generate bits e q wqe wqe.opcode)
  unfolding post_send post_to
  post_send-track bits e key q wqe found done = ground (arith, found, done)

  track-Posts :
      (e : RdmaEngine D) (key base : ℕ) (q : RdmaQueuePair) (ms : List Message) (wqe : SendWqe)
      (g : Generated D)
      → base < psn_count
      → Tracks e key base q ms
      → Numbers q g.qp (length g.packets)
      → g.engine.reliability_manager ≡ e.reliability_manager
      → (g.engine.cqs ≡ e.cqs) × (g.engine.config ≡ e.config)
      → g.engine.outgoing_packets ≡ e.outgoing_packets
      → (track key q.sq_psn wqe g).0 ≡ true
      → Posts e key base q ms wqe (track key q.sq_psn wqe g).1
  unfolding track
  track-Posts e key base q ms wqe g b t numbered manager same out done =
      elim (Bool-cases (length g.packets == 0)) [
        | inl none_sent ↦ absurd (ground (arith, none_sent, done))
        | inr some_sent ↦
            let n = length g.packets in
            let start = q.sq_psn in
            let small : start < psn_count = rw t.next (advance_psn-lt base (span ms)) in
            let at_least : 0 < n = ground arith in
            let tracked = record (put_qp g.engine key g.qp) {
              reliability_manager =
                  add_pending g.engine.reliability_manager key start (last_psn start n) wqe.wr_id
                    wqe.opcode 0;
            } in
            let queues = queue_packets-Queues tracked g.qp g.packets in
            rw (track, some_sent)
              (record {
                n = n;
                q' = g.qp;
                packets = at_least;
                kept = numbered.0;
                tracked = record {
                  found = rw queues.1 (lookup-insert_self key g.qp g.engine.qps);
                  pending =
                      ap (λ (r : ReliabilityManager). pending_of r key) queues.0
                      ∙ (rw manager (
                          pending_behind e.reliability_manager key base start n ms wqe b at_least
                            t.next t.pending));
                  next =
                      numbered.1 small
                      ∙ (rw (t.next, span-append ms (message_of wqe n))
                          (advance_psn-advance_psn base (span ms) n));
                };
                same_cqs = queues.2 ∙ same.0;
                same_config = queues.3 ∙ same.1;
                queued = queues.4 ∙ rw out refl;
              })
      ]

  -- An enabled engine tracks the messages `ms` on a queue pair. When `post_send` succeeds there, it has queued at
  -- least one packet, and tracks the new message, of so many packets, behind the others.
  pub post_send-Posts :
      (bits : BitFields) (e : RdmaEngine D) (key base : ℕ) (q : RdmaQueuePair) (ms : List Message)
      (wqe : SendWqe)
      → base < psn_count
      → Tracks e key base q ms
      → (post_send bits e key wqe).0 ≡ true
      → Posts e key base q ms wqe (post_send bits e key wqe).1
  post_send-Posts bits e key base q ms wqe b t done =
      let tracked = post_send-track bits e key q wqe t.found done in
      let leaves = generate-Leaves bits e q wqe wqe.opcode in
      rw tracked (
        track-Posts e key base q ms wqe (generate bits e q wqe wqe.opcode) b t
          (generate-Numbers bits e q wqe wqe.opcode) leaves.0 (leaves.2, leaves.3) leaves.4
          (rw (← tracked) done))
