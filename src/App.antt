-- ===== src/App.antt =====
-- The HTTP layer, src/llm_sandbox/app.py: session slots, the body limit, authentication, images, the
-- handlers, the start of the service with its readiness, and the log lines.
pub mod Slots
pub mod BodyLimit
pub mod Auth
pub mod Handlers
pub mod Logging
pub mod Readiness
