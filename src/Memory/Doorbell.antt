-- ===== src/Memory/Doorbell.antt =====
-- include/nic/doorbell.h and src/doorbell.cpp. The callback is code of the caller: `calls` is the
-- list of payloads that it was called with, oldest first.
use smart_nic.Base.{ℕ, Bool, false, Option, none, some, List, [], ◌∷◌, ◌++◌, if◌then◌else◌, add64}

pub record DoorbellPayload : Type 0 where
  pub queue_id : ℕ
  pub value : ℕ

pub record Doorbell : Type 0 where
  pub callback : Bool
  pub calls : List DoorbellPayload
  pub last_payload : Option DoorbellPayload
  pub rings : ℕ
  pub masked : Bool

unfoldable pub init : Doorbell
init = record { callback = false; calls = []; last_payload = none; rings = 0; masked = false }

unfoldable pub ring : Doorbell → DoorbellPayload → Doorbell
ring d p = if d.masked then d else record d {
  last_payload = some p;
  rings = add64 d.rings 1;
  calls = if d.callback then d.calls ++ (p ∷ []) else d.calls;
}

unfoldable pub set_callback : Doorbell → Bool → Doorbell
set_callback d present = record d { callback = present }

unfoldable pub set_masked : Doorbell → Bool → Doorbell
set_masked d masked = record d { masked = masked }

unfoldable pub reset : Doorbell → Doorbell
reset d = record d { rings = 0; last_payload = none }

-- A queue holds a pointer to a doorbell, or none.
unfoldable pub notify : Option Doorbell → DoorbellPayload → Option Doorbell
unfolding ring
notify none p = none
notify (some d) p = some (ring d p)
