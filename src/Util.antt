-- ===== src/Util.antt =====
-- pkg/util: errors, and what the helpers return.
pub mod Errors
pub mod Outcome
pub mod Await
pub mod Json
