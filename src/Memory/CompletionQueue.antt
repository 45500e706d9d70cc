-- ===== src/Memory/CompletionQueue.antt =====
-- include/nic/completion_queue.h and src/completion_queue.cpp. The doorbell is shared, so a call
-- that rings it takes it and gives it back.
pub mod Refine
use smart_nic.Base.{
  ℕ, ◌+◌, ◌-◌, ◌%◌, ◌^◌, Bool, true, false, Option, none, some, List, if◌then◌else◌, ◌==◌, get_or,
  set, replicate, add32, sub64,
}
use smart_nic.Memory.Doorbell.{Doorbell, DoorbellPayload, notify}

pub record CompletionEntry : Type 0 where
  pub queue_id : ℕ
  pub descriptor_index : ℕ
  pub status : ℕ
  pub checksum_offloaded : Bool
  pub checksum_verified : Bool
  pub tso_performed : Bool
  pub gso_performed : Bool
  pub vlan_inserted : Bool
  pub vlan_stripped : Bool
  pub gro_aggregated : Bool
  pub segments_produced : ℕ
  pub vlan_tag : ℕ

-- The entry with the initializers of the struct.
abbrev pub blank : CompletionEntry
blank = record {
  queue_id = 0;
  descriptor_index = 0;
  status = 0;
  checksum_offloaded = false;
  checksum_verified = false;
  tso_performed = false;
  gso_performed = false;
  vlan_inserted = false;
  vlan_stripped = false;
  gro_aggregated = false;
  segments_produced = 1;
  vlan_tag = 0;
}

pub record CompletionQueue : Type 0 where
  pub ring_size : ℕ
  pub queue_id : ℕ
  pub entries : List CompletionEntry
  pub producer_index : ℕ
  pub consumer_index : ℕ
  pub count : ℕ

unfoldable pub init : ℕ → ℕ → CompletionQueue
init ring_size queue_id = record {
  ring_size = ring_size;
  queue_id = queue_id;
  entries = replicate ring_size blank;
  producer_index = 0;
  consumer_index = 0;
  count = 0;
}

unfoldable pub is_full : CompletionQueue → Bool
is_full q = q.count == q.ring_size

unfoldable pub is_empty : CompletionQueue → Bool
is_empty q = q.count == 0

unfoldable pub available : CompletionQueue → ℕ
available q = q.count

unfoldable pub space : CompletionQueue → ℕ
space q = sub64 q.ring_size q.count

next_index : CompletionQueue → ℕ → ℕ
next_index q i = add32 i 1 % q.ring_size % 2 ^ 32

posted : CompletionQueue → CompletionEntry → CompletionQueue
unfolding next_index
posted q entry = record q {
  entries = set q.entries q.producer_index entry;
  producer_index = next_index q q.producer_index;
  count = add32 q.count 1;
}

unfoldable pub post_completion :
    CompletionQueue → Option Doorbell → CompletionEntry → Bool × CompletionQueue × Option Doorbell
unfolding posted is_full
post_completion q bell entry =
    if is_full q
    then (false, q, bell)
    else let q' = posted q entry in
      let payload : DoorbellPayload = record { queue_id = q.queue_id; value = q'.producer_index } in
      (true, q', notify bell payload)

polled : CompletionQueue → CompletionQueue
unfolding next_index
polled q = record q { consumer_index = next_index q q.consumer_index; count = q.count - 1 }

unfoldable pub poll_completion : CompletionQueue → Option CompletionEntry × CompletionQueue
unfolding polled is_empty
poll_completion q =
    if is_empty q then (none, q) else (some (get_or q.entries q.consumer_index blank), polled q)

unfoldable pub reset : CompletionQueue → CompletionQueue
reset q = record q { producer_index = 0; consumer_index = 0; count = 0 }
