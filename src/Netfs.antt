-- ===== src/Netfs.antt =====
-- hw2-netfs: the file system of hw1-fs behind a network protocol.
pub mod Socket
pub mod Protocol
pub mod Fields
pub mod Roundtrip
pub mod Server
pub mod Threads
pub mod Client
mod Tests
