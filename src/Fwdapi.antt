-- ===== src/Fwdapi.antt =====
-- pkg/fwdapi: what the HTTP server keeps of the past.
pub mod LogBuffer
pub mod History
mod Tests
