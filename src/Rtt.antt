-- ===== src/Rtt.antt =====
-- assignment-2/q1: round trip times of many hosts over ICMP.
pub mod Queue
pub mod HashMap
pub mod Checksum
pub mod Time
pub mod Proto
pub mod Send
pub mod Turn
pub mod Setup
pub mod Receive
pub mod Threads
mod Tests
