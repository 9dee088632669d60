-- ===== src/Phonedir.antt =====
-- hw3-kernel: the phone directory, a kernel module with a character device and three system calls.
pub mod Record
pub mod Directory
pub mod Device
pub mod Syscalls
pub mod Client
pub mod Systest
pub mod Lifetime
pub mod Lltest
mod Tests
