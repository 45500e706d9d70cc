-- ===== src/Rdma/Packet.antt =====
-- RoCEv2 packets, built and parsed: include/nic/rocev2/packet.h, formats.h and src/rocev2/packet.cpp. A
-- packet is the list of its bytes from the BTH on.
pub mod Icrc
pub mod Headers
pub mod Builder
pub mod Parser
pub mod Fields
pub mod Steps
pub mod RoundTrip
