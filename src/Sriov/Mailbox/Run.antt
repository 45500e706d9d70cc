-- ===== src/Sriov/Mailbox/Run.antt =====
-- Runs of calls on the mailbox of src/mailbox.cpp, with the handlers and the waiting.
use smart_nic.Base.{
  ℕ, Bool, List-cases, List, inl, map, if◌then◌else◌, Bool-cases, inr, ◌∷◌, none, arith, ◌==◌, [],
  Option-cases, true, false, refl,
}
use smart_nic.Base.Assoc.{lookup}
use smart_nic.Sriov.Mailbox.{
  Mailbox, MailboxMessage, MessageHandler, empty_mailbox, inbox_of, enqueue_to_vf, enqueue_to_pf,
  take_pf, take_vf, has_reply, send_to_vf, send_to_pf, receive_from_pf, receive_from_vf,
  allocate_sequence, set_pf_handler, set_vf_handler, process_pf, process_vf, process_vfs,
  process_pending, await, send_and_receive,
}
use smart_nic.Sriov.Mailbox.Laws.{
  IsSound, enqueue_to_vf-IsSound, enqueue_to_pf-IsSound, take_pf-IsSound, take_vf-IsSound, backlog,
}

process_pf-IsSound : (m : Mailbox) → IsSound m → IsSound (process_pf m)
unfolding process_pf
process_pf-IsSound m v = elim (Option-cases m.pf_handler) [
  | inl none_set ↦ ground (arith, none_set, v)
  | inr (handler, h) ↦ elim (List-cases m.pf_inbox) [
    | inl empty ↦ ground (arith, h, empty, v)
    | inr (msg, rest, e) ↦
        ground (arith, h, e, answered handler msg rest (take_pf-IsSound m v msg rest e))
  ]
]
  where
    answered :
        (handler : MessageHandler) (msg : MailboxMessage) (rest : List MailboxMessage)
        → IsSound (take_pf m rest)
        → IsSound (
            if has_reply (handler msg)
            then (enqueue_to_vf
                (take_pf m rest)
                (record (handler msg) { sequence = msg.sequence })).1
            else take_pf m rest)
    answered handler msg rest w = elim (Bool-cases (has_reply (handler msg))) [
      | inl yes_reply ↦ rw yes_reply (enqueue_to_vf-IsSound (take_pf m rest) w _)
      | inr no_reply ↦ rw no_reply w
    ]

process_vf-IsSound : (m : Mailbox) (id : ℕ) → IsSound m → IsSound (process_vf m id)
unfolding process_vf
process_vf-IsSound m id v = elim (Option-cases (lookup id m.vf_handlers)) [
  | inl none_set ↦ ground (arith, none_set, v)
  | inr (handler, h) ↦ elim (List-cases (inbox_of m.vf_inboxes id)) [
    | inl empty ↦ ground (arith, h, empty, v)
    | inr (msg, rest, e) ↦
        ground (arith, h, e, answered handler msg rest (take_vf-IsSound m v id msg rest e))
  ]
]
  where
    answered :
        (handler : MessageHandler) (msg : MailboxMessage) (rest : List MailboxMessage)
        → IsSound (take_vf m id rest)
        → IsSound (
            if has_reply (handler msg)
            then (enqueue_to_pf
                (take_vf m id rest)
                (record (handler msg) { sequence = msg.sequence })).1
            else take_vf m id rest)
    answered handler msg rest w = elim (Bool-cases (has_reply (handler msg))) [
      | inl yes_reply ↦ rw yes_reply (enqueue_to_pf-IsSound (take_vf m id rest) w _)
      | inr no_reply ↦ rw no_reply w
    ]

process_vfs-IsSound :
    (m : Mailbox) (boxes : List (ℕ × List MailboxMessage))
    → IsSound m
    → IsSound (process_vfs m boxes)
unfolding process_vfs
process_vfs-IsSound m [] v = v
process_vfs-IsSound m ((id, inbox) ∷ boxes) v =
    process_vfs-IsSound (process_vf m id) boxes (process_vf-IsSound m id v)

process_pending-IsSound : (m : Mailbox) → IsSound m → IsSound (process_pending m)
unfolding process_pending
process_pending-IsSound m v =
    process_vfs-IsSound (process_pf m) ((process_pf m).vf_inboxes) (process_pf-IsSound m v)

receive_from_pf-IsSound : (m : Mailbox) (id : ℕ) → IsSound m → IsSound (receive_from_pf m id).1
unfolding receive_from_pf
receive_from_pf-IsSound m id v = elim (List-cases (inbox_of m.vf_inboxes id)) [
  | inl empty ↦ ground (arith, empty, v)
  | inr (msg, rest, e) ↦ ground (arith, e, take_vf-IsSound m v id msg rest e)
]

receive_from_vf-IsSound : (m : Mailbox) (id : ℕ) → IsSound m → IsSound (receive_from_vf m id).1
unfolding receive_from_vf
receive_from_vf-IsSound m id v = elim (List-cases m.pf_inbox) [
  | inl empty ↦ ground (arith, empty, v)
  | inr (msg, rest, e) ↦ elim (Bool-cases (msg.vf_id == id)) [
    | inl match ↦ ground (arith, e, match, take_pf-IsSound m v msg rest e)
    | inr other ↦ ground (arith, e, other, v)
  ]
]

-- The calls that return at once.
pub data Call : Type 0 where
  sends_to_vf sends_to_pf : MailboxMessage → Call
  receives_from_vf receives_from_pf : ℕ → Call
  sets_pf_handler : MessageHandler → Call
  sets_vf_handler : ℕ → MessageHandler → Call
  processes : Call

unfoldable pub step : Mailbox → Call → Mailbox
step m (sends_to_vf msg) = (send_to_vf m msg).1
step m (sends_to_pf msg) = (send_to_pf m msg).1
step m (receives_from_vf id) = (receive_from_vf m id).1
step m (receives_from_pf id) = (receive_from_pf m id).1
step m (sets_pf_handler h) = set_pf_handler m h
step m (sets_vf_handler id h) = set_vf_handler m id h
step m processes = process_pending m

unfoldable pub run : List Call → Mailbox → Mailbox
run [] m = m
run (c ∷ cs) m = run cs (step m c)

-- A waiting call, with the calls that others make in each of its sleeps.
pub data Action : Type 0 where
  calls : Call → Action
  waits : MailboxMessage → List (List Call) → Action

unfoldable pub act : Mailbox → Action → Mailbox
act m (calls c) = step m c
act m (waits msg sleeps) = (send_and_receive m msg (map run sleeps)).1

unfoldable pub act_all : Mailbox → List Action → Mailbox
act_all m [] = m
act_all m (a ∷ acts) = act_all (act m a) acts

step-IsSound : (m : Mailbox) (c : Call) → IsSound m → IsSound (step m c)
unfolding step send_to_vf send_to_pf set_pf_handler set_vf_handler
step-IsSound m (sends_to_vf msg) v = enqueue_to_vf-IsSound m v msg
step-IsSound m (sends_to_pf msg) v = enqueue_to_pf-IsSound m v msg
step-IsSound m (receives_from_vf id) v = receive_from_vf-IsSound m id v
step-IsSound m (receives_from_pf id) v = receive_from_pf-IsSound m id v
step-IsSound m (sets_pf_handler h) v = record {
  pf_short = v.pf_short;
  vfs_short = v.vfs_short;
  balanced = v.balanced;
}
step-IsSound m (sets_vf_handler id h) v = record {
  pf_short = v.pf_short;
  vfs_short = v.vfs_short;
  balanced = v.balanced;
}
step-IsSound m processes v = process_pending-IsSound m v

run-IsSound : (cs : List Call) (m : Mailbox) → IsSound m → IsSound (run cs m)
unfolding run
run-IsSound [] m v = v
run-IsSound (c ∷ cs) m v = run-IsSound cs (step m c) (step-IsSound m c v)

polled-IsSound :
    (m : Mailbox) (id : ℕ)
    → IsSound m
    → IsSound (if id == 0 then receive_from_pf m id else receive_from_vf m id).1
polled-IsSound m id v = elim (Bool-cases (id == 0)) [
  | inl pf ↦ rw pf (receive_from_pf-IsSound m id v)
  | inr vf ↦ rw vf (receive_from_vf-IsSound m id v)
]

await-IsSound :
    (m : Mailbox) (id seq : ℕ) (sleeps : List (List Call))
    → IsSound m
    → IsSound (await m id seq (map run sleeps)).1
unfolding await
await-IsSound m id seq [] v = v
await-IsSound m id seq (sleep ∷ sleeps) v =
    let w = polled-IsSound m id v in
    let m' = (if id == 0 then receive_from_pf m id else receive_from_vf m id).1 in
    let rest = await-IsSound (run sleep m') id seq sleeps (run-IsSound sleep m' w) in
    ground (arith, w, rest)

send_and_receive-IsSound :
    (m : Mailbox) (msg : MailboxMessage) (sleeps : List (List Call))
    → IsSound m
    → IsSound (send_and_receive m msg (map run sleeps)).1
unfolding send_and_receive allocate_sequence send_to_pf send_to_vf
send_and_receive-IsSound m msg sleeps v = elim (Bool-cases (msg.vf_id == 0)) [
  | inl pf ↦ rw pf (then_waits (enqueue_to_pf m1 request) (enqueue_to_pf-IsSound m1 w request))
  | inr vf ↦ rw vf (then_waits (enqueue_to_vf m1 request) (enqueue_to_vf-IsSound m1 w request))
]
  where
    m1 : Mailbox
    m1 = (allocate_sequence m).1

    request : MailboxMessage
    request = record msg { sequence = m.next_sequence }

    w : IsSound m1
    w = record { pf_short = v.pf_short; vfs_short = v.vfs_short; balanced = v.balanced }

    then_waits :
        (r : Bool × Mailbox)
        → IsSound r.1
        → IsSound
            (if r.0 then await r.1 msg.vf_id m.next_sequence (map run sleeps) else (none, r.1)).1
    then_waits (true, m2) u = await-IsSound m2 msg.vf_id m.next_sequence sleeps u
    then_waits (false, m2) u = u

act_all-IsSound : (m : Mailbox) (acts : List Action) → IsSound m → IsSound (act_all m acts)
unfolding act_all act
act_all-IsSound m [] v = v
act_all-IsSound m (calls c ∷ acts) v = act_all-IsSound (step m c) acts (step-IsSound m c v)
act_all-IsSound m (waits msg sleeps ∷ acts) v =
    act_all-IsSound (act m (waits msg sleeps)) acts (send_and_receive-IsSound m msg sleeps v)

-- After any actions on a new mailbox, waiting ones and handlers included, no inbox holds more than
-- 16 messages, and the messages sent are the messages received and those that wait in the inboxes,
-- modulo 2^64.
pub act_all-IsSound_empty : (acts : List Action) → IsSound (act_all empty_mailbox acts)
unfolding inbox_of lookup backlog
act_all-IsSound_empty acts =
    act_all-IsSound empty_mailbox acts
      (record { pf_short = omega arith; vfs_short = λ id. omega arith; balanced = refl })
