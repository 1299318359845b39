-- ===== src/Fwdtui.antt =====
-- pkg/fwdtui: the state behind the terminal interface.
pub mod State
pub mod Events
pub mod Rates
mod Tests
