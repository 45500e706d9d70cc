-- ===== src/Queue.antt =====
-- The data path of the device: src/checksum.cpp, and src/queue_pair.cpp with include/nic/tx_rx.h.
pub mod Checksum
pub mod Descriptor
pub mod Pair
