-- ===== src/Sriov/Mailbox.antt =====
-- include/nic/mailbox.h and src/mailbox.cpp. A handler is a function of the message alone, and runs
-- in the order of the list of inboxes, where the source takes the map's.
pub mod Laws
pub mod Run
use smart_nic.Base.Assoc.{lookup, insert}
use smart_nic.Base.{
  ℕ, Bool, List, Option, none, if◌then◌else◌, add32, some, true, not, [], leb, add64, false, ◌∷◌,
  ◌||◌, ◌==◌, length, ◌++◌,
}

pub data MailboxOpcode : Type 0 where
  vf_reset get_stats set_mtu set_mac_addr set_vlan get_resources ack nack : MailboxOpcode

pub record MailboxMessage : Type 0 where
  pub opcode : MailboxOpcode
  pub vf_id : ℕ
  pub sequence : ℕ
  pub payload : List ℕ

abbrev pub MessageHandler : Type 0
MessageHandler = MailboxMessage → MailboxMessage

pub record Mailbox : Type 0 where
  pub pf_handler : Option MessageHandler
  pub vf_handlers : List (ℕ × MessageHandler)
  pub pf_inbox : List MailboxMessage
  pub vf_inboxes : List (ℕ × List MailboxMessage)
  pub next_sequence : ℕ
  pub messages_sent : ℕ
  pub messages_received : ℕ
  pub messages_dropped : ℕ

abbrev pub max_queue_depth : ℕ
max_queue_depth = 16

abbrev pub empty_mailbox : Mailbox
empty_mailbox = record {
  pf_handler = none;
  vf_handlers = [];
  pf_inbox = [];
  vf_inboxes = [];
  next_sequence = 1;
  messages_sent = 0;
  messages_received = 0;
  messages_dropped = 0;
}

-- `vf_inboxes_[vf_id]`: a key that is missing has an empty inbox.
unfoldable pub inbox_of : List (ℕ × List MailboxMessage) → ℕ → List MailboxMessage
inbox_of boxes id = elim (lookup id boxes) [ none ↦ [] | some inbox ↦ inbox ]

-- Reading `vf_inboxes_[msg.vf_id]` enters the key even when the message is dropped.
unfoldable pub enqueue_to_vf : Mailbox → MailboxMessage → Bool × Mailbox
unfolding inbox_of
enqueue_to_vf m msg =
    let inbox = inbox_of m.vf_inboxes msg.vf_id in
    if leb max_queue_depth (length inbox)
    then (
      false,
      record m {
        vf_inboxes = insert msg.vf_id inbox m.vf_inboxes;
        messages_dropped = add64 (m.messages_dropped) 1;
      },
    )
    else (
      true,
      record m {
        vf_inboxes = insert msg.vf_id (inbox ++ (msg ∷ [])) m.vf_inboxes;
        messages_sent = add64 (m.messages_sent) 1;
      },
    )

unfoldable pub enqueue_to_pf : Mailbox → MailboxMessage → Bool × Mailbox
enqueue_to_pf m msg =
    if leb max_queue_depth (length m.pf_inbox)
    then (false, record m { messages_dropped = add64 (m.messages_dropped) 1 })
    else (
      true,
      record m { pf_inbox = m.pf_inbox ++ (msg ∷ []); messages_sent = add64 (m.messages_sent) 1 },
    )

unfoldable pub send_to_vf : Mailbox → MailboxMessage → Bool × Mailbox
unfolding enqueue_to_vf
send_to_vf m msg = enqueue_to_vf m msg

unfoldable pub send_to_pf : Mailbox → MailboxMessage → Bool × Mailbox
unfolding enqueue_to_pf
send_to_pf m msg = enqueue_to_pf m msg

-- `pf_inbox_.pop()`, and a virtual function's, with the count that goes with it.
unfoldable pub take_pf : Mailbox → List MailboxMessage → Mailbox
take_pf m rest = record m { pf_inbox = rest; messages_received = add64 (m.messages_received) 1 }

unfoldable pub take_vf : Mailbox → ℕ → List MailboxMessage → Mailbox
take_vf m id rest = record m {
  vf_inboxes = insert id rest m.vf_inboxes;
  messages_received = add64 (m.messages_received) 1;
}

-- Only the message in front is looked at.
unfoldable pub receive_from_vf : Mailbox → ℕ → Option MailboxMessage × Mailbox
unfolding take_pf
receive_from_vf m id = elim m.pf_inbox [
  | [] ↦ (none, m)
  | msg ∷ rest ↦ if msg.vf_id == id then (some msg, take_pf m rest) else (none, m)
]

unfoldable pub receive_from_pf : Mailbox → ℕ → Option MailboxMessage × Mailbox
unfolding inbox_of take_vf
receive_from_pf m id = elim (inbox_of m.vf_inboxes id) [
  | [] ↦ (none, m)
  | msg ∷ rest ↦ (some msg, take_vf m id rest)
]

unfoldable pub allocate_sequence : Mailbox → ℕ × Mailbox
allocate_sequence m = (m.next_sequence, record m { next_sequence = add32 (m.next_sequence) 1 })

unfoldable pub set_pf_handler : Mailbox → MessageHandler → Mailbox
set_pf_handler m h = record m { pf_handler = some h }

unfoldable pub set_vf_handler : Mailbox → ℕ → MessageHandler → Mailbox
set_vf_handler m id h = record m { vf_handlers = insert id h m.vf_handlers }

is_ack : MailboxOpcode → Bool
is_ack ack = true
is_ack _ = false

is_empty : List ℕ → Bool
is_empty [] = true
is_empty (x ∷ xs) = false

-- A response that is a bare acknowledgement is not sent.
unfoldable pub has_reply : MailboxMessage → Bool
unfolding is_ack is_empty
has_reply r = not (is_ack r.opcode) || not (is_empty r.payload)

-- The first half of `process_pending`.
unfoldable pub process_pf : Mailbox → Mailbox
unfolding take_pf has_reply enqueue_to_vf
process_pf m = elim m.pf_handler [
  | none ↦ m
  | some handler ↦ elim m.pf_inbox [
    | [] ↦ m
    | msg ∷ rest ↦
        let response = handler msg in
        if has_reply response
        then (enqueue_to_vf (take_pf m rest) (record response { sequence = msg.sequence })).1
        else take_pf m rest
  ]
]

-- One turn of the loop over the inboxes.
unfoldable pub process_vf : Mailbox → ℕ → Mailbox
unfolding inbox_of take_vf has_reply enqueue_to_pf
process_vf m id = elim (lookup id m.vf_handlers) [
  | none ↦ m
  | some handler ↦ elim (inbox_of m.vf_inboxes id) [
    | [] ↦ m
    | msg ∷ rest ↦
        let response = handler msg in
        if has_reply response
        then (enqueue_to_pf (take_vf m id rest) (record response { sequence = msg.sequence })).1
        else take_vf m id rest
  ]
]

unfoldable pub process_vfs : Mailbox → List (ℕ × List MailboxMessage) → Mailbox
unfolding process_vf
process_vfs m [] = m
process_vfs m ((id, inbox) ∷ boxes) = process_vfs (process_vf m id) boxes

unfoldable pub process_pending : Mailbox → Mailbox
unfolding process_pf process_vfs
process_pending m = let m' = process_pf m in process_vfs m' m'.vf_inboxes

-- The loop of `send_and_receive`: `sleeps` says what others do to the mailbox in each sleep, and
-- has an entry for each turn that the clock allows.
unfoldable pub await : Mailbox → ℕ → ℕ → List (Mailbox → Mailbox) → Option MailboxMessage × Mailbox
unfolding receive_from_pf receive_from_vf
await m id seq [] = (none, m)
await m id seq (sleep ∷ sleeps) =
    let (response, m') = if id == 0 then receive_from_pf m id else receive_from_vf m id in
    let rest = await (sleep m') id seq sleeps in
    elim response [ none ↦ rest | some r ↦ if r.sequence == seq then (some r, m') else rest ]

unfoldable pub send_and_receive :
    Mailbox → MailboxMessage → List (Mailbox → Mailbox) → Option MailboxMessage × Mailbox
unfolding allocate_sequence send_to_pf send_to_vf await
send_and_receive m msg sleeps =
    let (seq, m1) = allocate_sequence m in
    let request = record msg { sequence = seq } in
    let (sent, m2) = if msg.vf_id == 0 then send_to_pf m1 request else send_to_vf m1 request in
    if sent then await m2 msg.vf_id seq sleeps else (none, m2)
