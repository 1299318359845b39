-- ===== src/Fwdmetrics.antt =====
-- pkg/fwdmetrics: what is measured of the data that passes through the forwards.
pub mod Rate
pub mod Sniffer
pub mod Forward
pub mod Services
mod Tests
