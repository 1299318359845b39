-- ===== src/Fwdservice.antt =====
-- pkg/fwdservice/fwdservice.go: a service, its forwards, and their synchronisation with the cluster.
pub mod Types
pub mod Ports
pub mod Forwards
pub mod Sync
pub mod Reconnect
mod Tests
