-- ===== src/Fwdip.antt =====
-- pkg/fwdip/fwdIp.go: which loopback address a forward gets.
pub mod Types
pub mod Octets
pub mod Matching
pub mod Config
pub mod Allocation
mod Tests
