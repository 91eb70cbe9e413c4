-- ===== src/Tcp.antt =====
-- The TCP transport of src/tcp*.go, a module for each group of fields of the struct `TCB` with the
-- functions that read and write them.
pub mod Seq
pub mod Rtt
pub mod Congestion
pub mod Segment
pub mod RingBuf
pub mod Retx
pub mod Connection
pub mod Table
pub mod Entry
