-- ===== src/Fwdns.antt =====
-- pkg/fwdns/manager.go: namespaces that are watched, and what their watchers do with service events.
pub mod Indices
pub mod PortMapping
pub mod Manager
pub mod Handlers
pub mod View
pub mod Stopping
mod Tests
