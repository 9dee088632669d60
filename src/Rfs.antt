-- ===== src/Rfs.antt =====
-- hw1-fs: a file system inside one memory-mapped file, and its command line.
pub mod Machine
pub mod Layout
pub mod Table
pub mod Blocks
pub mod Files
pub mod Directory
pub mod Paths
pub mod Volume
pub mod Commands
pub mod Tests
pub mod Examples
