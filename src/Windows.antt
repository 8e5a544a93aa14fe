-- ===== src/Windows.antt =====
-- The Windows functions that the program calls, as parameters: records of operations on an abstract
-- state `W` of the operating system, with the documented behaviour that proofs rely on.
pub mod Registry
pub mod System
pub mod Icmp
pub mod Dns
pub mod Processes
pub mod Services
pub mod Healing
pub mod Console
pub mod Hardware
pub mod Udp
pub mod Snapshot
