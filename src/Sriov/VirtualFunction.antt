-- ===== src/Sriov/VirtualFunction.antt =====
-- include/nic/virtual_function.h and src/virtual_function.cpp.
use smart_nic.Base.{ℕ, Bool, true, false, List, [], add64}

pub record VfConfig : Type 0 where
  pub vf_id : ℕ
  pub num_queues : ℕ
  pub num_vectors : ℕ
  pub enabled : Bool
  pub trust : Bool

pub data VfState : Type 0 where
  disabled running was_reset flr_in_progress : VfState

pub record VfStats : Type 0 where
  pub tx_packets : ℕ
  pub rx_packets : ℕ
  pub tx_bytes : ℕ
  pub rx_bytes : ℕ
  pub tx_drops : ℕ
  pub rx_drops : ℕ
  pub resets : ℕ
  pub mailbox_messages : ℕ

pub record VirtualFunction : Type 0 where
  pub config : VfConfig
  pub state : VfState
  pub stats : VfStats
  pub queue_ids : List ℕ
  pub vector_ids : List ℕ

abbrev pub no_stats : VfStats
no_stats = record {
  tx_packets = 0;
  rx_packets = 0;
  tx_bytes = 0;
  rx_bytes = 0;
  tx_drops = 0;
  rx_drops = 0;
  resets = 0;
  mailbox_messages = 0;
}

unfoldable pub create : VfConfig → VirtualFunction
create c = record {
  config = c;
  state = disabled;
  stats = no_stats;
  queue_ids = [];
  vector_ids = [];
}

unfoldable pub enter : VirtualFunction → VfState → Bool → VirtualFunction
enter v s flag = record v { state = s; config = record (v.config) { enabled = flag } }

-- A reset in progress refuses.
unfoldable pub enable : VirtualFunction → Bool × VirtualFunction
unfolding enter
enable v = elim v.state [
  | running ↦ (true, v)
  | flr_in_progress ↦ (false, v)
  | _ ↦ (true, enter v running true)
]

unfoldable pub disable : VirtualFunction → Bool × VirtualFunction
unfolding enter
disable v = elim v.state [
  | disabled ↦ (true, v)
  | flr_in_progress ↦ (false, v)
  | _ ↦ (true, enter v disabled false)
]

-- The state passes through `flr_in_progress` within the call.
unfoldable pub reset : VirtualFunction → Bool × VirtualFunction
unfolding enter
reset v =
    let flr = record v {
      state = flr_in_progress;
      stats = record (v.stats) { resets = add64 (v.stats.resets) 1 };
    } in
    (true, enter flr was_reset false)

unfoldable pub set_queue_ids : VirtualFunction → List ℕ → VirtualFunction
set_queue_ids v ids = record v { queue_ids = ids }

unfoldable pub set_vector_ids : VirtualFunction → List ℕ → VirtualFunction
set_vector_ids v ids = record v { vector_ids = ids }

unfoldable pub record_tx_packet : VirtualFunction → ℕ → VirtualFunction
record_tx_packet v bytes = record v {
  stats = record (v.stats) {
    tx_packets = add64 (v.stats.tx_packets) 1;
    tx_bytes = add64 (v.stats.tx_bytes) bytes;
  };
}

unfoldable pub record_rx_packet : VirtualFunction → ℕ → VirtualFunction
record_rx_packet v bytes = record v {
  stats = record (v.stats) {
    rx_packets = add64 (v.stats.rx_packets) 1;
    rx_bytes = add64 (v.stats.rx_bytes) bytes;
  };
}

unfoldable pub record_tx_drop : VirtualFunction → VirtualFunction
record_tx_drop v = record v { stats = record (v.stats) { tx_drops = add64 (v.stats.tx_drops) 1 } }

unfoldable pub record_rx_drop : VirtualFunction → VirtualFunction
record_rx_drop v = record v { stats = record (v.stats) { rx_drops = add64 (v.stats.rx_drops) 1 } }

unfoldable pub record_mailbox_message : VirtualFunction → VirtualFunction
record_mailbox_message v = record v {
  stats = record (v.stats) { mailbox_messages = add64 (v.stats.mailbox_messages) 1 };
}

unfoldable pub reset_stats : VirtualFunction → VirtualFunction
reset_stats v = record v { stats = no_stats }
