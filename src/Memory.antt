-- ===== src/Memory.antt =====
-- Host memory and the data path to it: src/simple_host_memory.cpp, src/dma_engine.cpp,
-- src/doorbell.cpp, src/descriptor_ring.cpp and src/completion_queue.cpp with their headers.
pub mod Host
pub mod Dma
pub mod Doorbell
pub mod Fifo
pub mod DescriptorRing
pub mod CompletionQueue
