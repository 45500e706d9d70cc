-- ===== src/Tests/Sriov.antt =====
-- A manager with eight queues, two of them its own, and a mailbox with a message that waits.
use smart_nic.Base.{ℕ, Bool, List, ◌≡◌, false, ◌∷◌, [], arith, true, refl}
use smart_nic.Base.Assoc.{lookup, insert}
use smart_nic.Memory.Fifo
use smart_nic.Sriov.Bitmap.{find_free_range, mark}
use smart_nic.Sriov.Bitmap.Exclusive.{Disjoint}
use smart_nic.Sriov.VirtualFunction
use smart_nic.Sriov.VirtualFunction.{VfConfig, VirtualFunction}
use smart_nic.Sriov.Manager.{PfConfig, ResourceAllocation, create, create_vf}
use smart_nic.Sriov.Manager.Run
use smart_nic.Sriov.Manager.Run.{creates, Owns, run-create-Disjoint, queues_in, vectors_in}
use smart_nic.Sriov.Mailbox.{
  Mailbox, MailboxMessage, empty_mailbox, inbox_of, send_to_vf, get_stats,
}
use smart_nic.Sriov.Mailbox.Laws.{IsSound, send_to_vf_refines, backlog}
use smart_nic.Sriov.Mailbox.Run.{
  act_all, act_all-IsSound_empty, calls, waits, sends_to_vf, sets_vf_handler, processes,
}

abbrev bits : List Bool
bits = true ∷ true ∷ false ∷ true ∷ false ∷ false ∷ []

abbrev pf_config : PfConfig
pf_config = record {
  max_vfs = 4;
  total_queues = 8;
  total_vectors = 8;
  pf_reserved_queues = 2;
  pf_reserved_vectors = 1;
}

abbrev vf_config : ℕ → VfConfig
vf_config id = record {
  vf_id = id;
  num_queues = 2;
  num_vectors = 1;
  enabled = false;
  trust = false;
}

abbrev history : List Run.Call
history = creates 1 (vf_config 1) ∷ creates 2 (vf_config 2) ∷ []

abbrev made : ℕ → List ℕ → List ℕ → VirtualFunction
made id queues vectors = record {
  config = vf_config id;
  state = VirtualFunction.disabled;
  stats = VirtualFunction.no_stats;
  queue_ids = queues;
  vector_ids = vectors;
}

run-create-Disjoint_example :
    (a : ResourceAllocation) × (b : ResourceAllocation) × Owns pf_config
      (made 1 (2 ∷ 3 ∷ []) (1 ∷ []))
      a
    × Owns pf_config (made 2 (4 ∷ 5 ∷ []) (2 ∷ [])) b
    × Disjoint (queues_in a) (queues_in b)
    × Disjoint (vectors_in a) (vectors_in b)
unfolding create Run.run Run.step create_vf lookup find_free_range mark insert
    VirtualFunction.set_vector_ids VirtualFunction.set_queue_ids
run-create-Disjoint_example =
    run-create-Disjoint pf_config history (omega arith) (omega arith) 1 2 _ _ refl refl
      (omega arith)

abbrev message : ℕ → MailboxMessage
message n = record { opcode = get_stats; vf_id = 3; sequence = n; payload = [] }

abbrev mailbox : Mailbox
mailbox = record empty_mailbox { vf_inboxes = (3, message 1 ∷ []) ∷ []; messages_sent = 1 }

mailbox-IsSound : IsSound mailbox
unfolding inbox_of lookup backlog
mailbox-IsSound = record { pf_short = omega arith; vfs_short = λ id. ground arith; balanced = refl }

send_to_vf_refines_example :
    let (sent, m') = send_to_vf mailbox (message 2) in
    let (taken, inbox) = Fifo.offer 16 (inbox_of mailbox.vf_inboxes 3) (message 2) in
    (sent ≡ taken) × (inbox_of m'.vf_inboxes 3 ≡ inbox) × (m'.pf_inbox ≡ [])
send_to_vf_refines_example = send_to_vf_refines mailbox (message 2) 3 mailbox-IsSound

act_all-IsSound_empty_example : IsSound (
    act_all empty_mailbox (
      calls (sets_vf_handler 3 (λ m. m))
      ∷ calls (sends_to_vf (message 1))
      ∷ waits (message 2) ((processes ∷ []) ∷ [])
      ∷ []))
act_all-IsSound_empty_example = act_all-IsSound_empty (
    calls (sets_vf_handler 3 (λ m. m))
    ∷ calls (sends_to_vf (message 1))
    ∷ waits (message 2) ((processes ∷ []) ∷ [])
    ∷ [])
