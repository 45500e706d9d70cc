-- ===== src/Sriov.antt =====
-- SR-IOV: src/virtual_function.cpp, src/pf_vf_manager.cpp and src/mailbox.cpp with their headers.
pub mod VirtualFunction
pub mod Bitmap
pub mod Manager
pub mod Mailbox
