-- ===== src/Sriov/Mailbox/Laws.antt =====
-- The inboxes of src/mailbox.cpp are bounded queues, and the counters account for every message.
use smart_nic.Base.{
  ℕ, List, length, Bool-cases, ◌≡◌, ◌++◌, ◌+◌, ◌≤◌, leb, if◌then◌else◌, ◌∷◌, arith, ◌%◌, [], inl,
  suc, ◌==◌, ◌^◌, length-append, inr, ap, List-cases,
}
use smart_nic.Base.Assoc.{lookup, insert, lookup-insert}
use smart_nic.Memory.Fifo
use smart_nic.Sriov.Mailbox.{
  Mailbox, MailboxMessage, max_queue_depth, inbox_of, enqueue_to_vf, enqueue_to_pf, take_pf,
  take_vf, send_to_vf, receive_from_pf,
}

-- The messages in the inboxes of the virtual functions.
unfoldable pub backlog : List (ℕ × List MailboxMessage) → ℕ
backlog [] = 0
backlog ((id, inbox) ∷ boxes) = length inbox + backlog boxes

backlog-insert :
    (k : ℕ) (inbox : List MailboxMessage) (boxes : List (ℕ × List MailboxMessage))
    → backlog (insert k inbox boxes) + length (inbox_of boxes k) ≡ backlog boxes + length inbox
unfolding backlog insert inbox_of lookup
backlog-insert k inbox [] = omega arith
backlog-insert k inbox ((j, b) ∷ boxes) = ground (arith, backlog-insert k inbox boxes)

pub inbox_of-insert :
    (k j : ℕ) (inbox : List MailboxMessage) (boxes : List (ℕ × List MailboxMessage))
    → inbox_of (insert k inbox boxes) j ≡ (if k == j then inbox else inbox_of boxes j)
unfolding inbox_of
inbox_of-insert k j inbox boxes = ground (arith, lookup-insert k j inbox boxes)

-- No inbox is longer than its depth, and each message sent was received or waits in an inbox,
-- counted modulo 2^64.
pub record IsSound (m : Mailbox) : Type 0 where
  pub pf_short : length m.pf_inbox ≤ max_queue_depth
  pub vfs_short : (id : ℕ) → length (inbox_of m.vf_inboxes id) ≤ max_queue_depth
  pub balanced :
      m.messages_sent ≡ (m.messages_received + length m.pf_inbox + backlog m.vf_inboxes) % 2 ^ 64

module _ (m : Mailbox) (v : IsSound m) where
  pub enqueue_to_vf-IsSound : (msg : MailboxMessage) → IsSound (enqueue_to_vf m msg).1
  unfolding enqueue_to_vf
  enqueue_to_vf-IsSound msg =
      let old = inbox_of m.vf_inboxes msg.vf_id in
      let longer = old ++ (msg ∷ []) in
      let n = length-append old (msg ∷ []) in
      elim (Bool-cases (leb max_queue_depth (length old))) [
        | inl full ↦ rw full (record {
          pf_short = v.pf_short;
          vfs_short =
              λ id. ground (arith, v.vfs_short id, inbox_of-insert msg.vf_id id old m.vf_inboxes);
          balanced = ground (arith, v.balanced, backlog-insert msg.vf_id old m.vf_inboxes);
        })
        | inr room ↦ rw room (record {
          pf_short = v.pf_short;
          vfs_short = λ id.
              ground (arith, n, v.vfs_short id, inbox_of-insert msg.vf_id id longer m.vf_inboxes);
          balanced = ground (arith, n, v.balanced, backlog-insert msg.vf_id longer m.vf_inboxes);
        })
      ]

  pub enqueue_to_pf-IsSound : (msg : MailboxMessage) → IsSound (enqueue_to_pf m msg).1
  unfolding enqueue_to_pf
  enqueue_to_pf-IsSound msg = elim (Bool-cases (leb max_queue_depth (length m.pf_inbox))) [
    | inl full ↦
        rw full (record { pf_short = v.pf_short; vfs_short = v.vfs_short; balanced = v.balanced })
    | inr room ↦ rw room (record {
      pf_short = ground (arith, length-append m.pf_inbox (msg ∷ []));
      vfs_short = v.vfs_short;
      balanced = ground (arith, v.balanced, length-append m.pf_inbox (msg ∷ []));
    })
  ]

  pub take_pf-IsSound :
      (msg : MailboxMessage) (rest : List MailboxMessage)
      → m.pf_inbox ≡ msg ∷ rest
      → IsSound (take_pf m rest)
  unfolding take_pf
  take_pf-IsSound msg rest e =
      let n : length m.pf_inbox ≡ suc (length rest) = ap length e in
      record {
        pf_short = omega (arith, n, v.pf_short);
        vfs_short = v.vfs_short;
        balanced = omega (arith, n, v.balanced);
      }

  pub take_vf-IsSound :
      (id : ℕ) (msg : MailboxMessage) (rest : List MailboxMessage)
      → inbox_of m.vf_inboxes id ≡ msg ∷ rest
      → IsSound (take_vf m id rest)
  unfolding take_vf
  take_vf-IsSound id msg rest e =
      let n : length (inbox_of m.vf_inboxes id) ≡ suc (length rest) = ap length e in
      record {
        pf_short = v.pf_short;
        vfs_short = λ j.
            ground
              (arith, n, v.vfs_short j, v.vfs_short id, inbox_of-insert id j rest m.vf_inboxes);
        balanced = omega (arith, n, v.balanced, backlog-insert id rest m.vf_inboxes);
      }

-- In a sound mailbox, sending to a virtual function appends to its inbox if that is not full and
-- drops the message if it is; no other inbox changes.
pub send_to_vf_refines :
    (m : Mailbox) (msg : MailboxMessage) (id : ℕ)
    → IsSound m
    → let (sent, m') = send_to_vf m msg in
      let (taken, inbox) = Fifo.offer max_queue_depth (inbox_of m.vf_inboxes msg.vf_id) msg in
      (sent ≡ taken)
      × (inbox_of m'.vf_inboxes id ≡ (if msg.vf_id == id then inbox else inbox_of m.vf_inboxes id))
      × (m'.pf_inbox ≡ m.pf_inbox)
unfolding send_to_vf enqueue_to_vf Fifo.offer
send_to_vf_refines m msg id v =
    let old = inbox_of m.vf_inboxes msg.vf_id in
    ground (
      arith,
      v.vfs_short msg.vf_id,
      inbox_of-insert msg.vf_id id old m.vf_inboxes,
      inbox_of-insert msg.vf_id id (old ++ (msg ∷ [])) m.vf_inboxes,
    )

-- Receiving as a virtual function takes the oldest message of its inbox; no other inbox changes.
pub receive_from_pf_refines :
    (m : Mailbox) (vf id : ℕ)
    → let (r, m') = receive_from_pf m vf in
      let (taken, inbox) = Fifo.poll (inbox_of m.vf_inboxes vf) in
      (r ≡ taken)
      × (inbox_of m'.vf_inboxes id ≡ (if vf == id then inbox else inbox_of m.vf_inboxes id))
      × (m'.pf_inbox ≡ m.pf_inbox)
unfolding receive_from_pf take_vf Fifo.poll
receive_from_pf_refines m vf id = elim (List-cases (inbox_of m.vf_inboxes vf)) [
  | inl e ↦ ground (arith, e)
  | inr (msg, rest, e) ↦ ground (arith, e, inbox_of-insert vf id rest m.vf_inboxes)
]
