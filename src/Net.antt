-- ===== src/Net.antt =====
-- What the protocols of the network stack share.
pub mod Checksum
pub mod ByteOrder
pub mod Bytes
pub mod Udp
pub mod Arp
pub mod Ip
