-- ===== src/Tests.antt =====
-- The theorems at work on small devices.
mod BitFields
mod Congestion
mod Engine
mod Flow
mod Interrupt
mod Memory
mod Packet
mod Queue
mod Rdma
mod Rss
mod Sriov
