-- ===== src/Base.antt =====
-- The provider seam, src/llm_sandbox/providers/base.py.
pub mod Errors
pub mod Limits
pub mod Stream
pub mod Session
pub mod Script
mod Tests
