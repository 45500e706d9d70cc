-- ===== src/Flow/Pause.antt =====
-- `FlowControlManager` of include/nic/flow_control.h and src/flow_control.cpp.
pub mod Laws
use smart_nic.Base.{
  ℕ, Bool, false, ltb, if◌then◌else◌, add64, Option, not, leb, some, ◌-◌, none, ◌&&◌, true,
}
use smart_nic.Flow.Frames.{PauseFrame, opcode_classic_pause}

pub record FlowControlConfig : Type 0 where
  pub rx_pause_enabled : Bool
  pub tx_pause_enabled : Bool
  pub pause_threshold : ℕ
  pub resume_threshold : ℕ
  pub default_pause_time : ℕ

pub record FlowControlStats : Type 0 where
  pub pause_frames_received : ℕ
  pub pause_frames_sent : ℕ
  pub total_paused_time_quanta : ℕ

pub record FlowControlManager : Type 0 where
  pub config : FlowControlConfig
  pub pause_timer : ℕ
  pub stats : FlowControlStats
  pub pause_sent : Bool

abbrev pub no_stats : FlowControlStats
no_stats = record { pause_frames_received = 0; pause_frames_sent = 0; total_paused_time_quanta = 0 }

unfoldable pub create : FlowControlConfig → FlowControlManager
create c = record { config = c; pause_timer = 0; stats = no_stats; pause_sent = false }

unfoldable pub is_paused : FlowControlManager → Bool
is_paused m = ltb 0 m.pause_timer

unfoldable pub on_pause_frame_received : FlowControlManager → PauseFrame → FlowControlManager
on_pause_frame_received m frame = if not m.config.rx_pause_enabled then m else record m {
  pause_timer = frame.pause_time;
  stats = record (m.stats) { pause_frames_received = add64 (m.stats.pause_frames_received) 1 };
}

unfoldable pub count_paused : FlowControlManager → ℕ → FlowControlStats
count_paused m n = record (m.stats) {
  total_paused_time_quanta = add64 (m.stats.total_paused_time_quanta) n;
}

unfoldable pub tick : FlowControlManager → ℕ → FlowControlManager
unfolding count_paused
tick m quanta =
    if ltb 0 m.pause_timer
    then if leb m.pause_timer quanta
      then record m { pause_timer = 0; stats = count_paused m m.pause_timer }
      else record m { pause_timer = m.pause_timer - quanta; stats = count_paused m quanta }
    else m

unfoldable pub send_pause : FlowControlManager → Bool → ℕ → Option PauseFrame × FlowControlManager
send_pause m flag time = (
  some (record { opcode = opcode_classic_pause; pause_time = time }),
  record m {
    pause_sent = flag;
    stats = record (m.stats) { pause_frames_sent = add64 (m.stats.pause_frames_sent) 1 };
  },
)

unfoldable pub generate_pause_frame :
    FlowControlManager → ℕ → Option PauseFrame × FlowControlManager
unfolding send_pause
generate_pause_frame m queue_depth =
    if not m.config.tx_pause_enabled
    then (none, m)
    else if leb m.config.pause_threshold queue_depth && not m.pause_sent
    then send_pause m true m.config.default_pause_time
    else if ltb queue_depth m.config.resume_threshold && m.pause_sent
    then send_pause m false 0
    else (none, m)

unfoldable pub reset_stats : FlowControlManager → FlowControlManager
reset_stats m = record m { stats = no_stats }
