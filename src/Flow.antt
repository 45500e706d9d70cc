-- ===== src/Flow.antt =====
-- Flow control: include/nic/flow_control.h and src/flow_control.cpp.
pub mod Frames
pub mod Pause
