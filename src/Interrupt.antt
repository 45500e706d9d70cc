-- ===== src/Interrupt.antt =====
-- Interrupts: include/nic/msix.h, include/nic/interrupt_dispatcher.h and their sources.
pub mod Msix
pub mod Dispatcher
