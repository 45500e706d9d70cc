-- ===== src/Rdma.antt =====
-- The RoCEv2 engine's tables and queues: src/rocev2 and include/nic/rocev2.
pub mod Psn
pub mod Opcode
pub mod BitFields
pub mod Packet
pub mod Wqe
pub mod QueuePair
pub mod CompletionQueue
pub mod PdTable
pub mod MrTable
pub mod Transfer
pub mod SendRecv
pub mod Write
pub mod Read
pub mod Reliability
pub mod Congestion
pub mod Engine
