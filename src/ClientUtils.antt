-- ===== src/ClientUtils.antt =====
-- The crate client-utils/: packet handlers and the session.
pub mod Handlers
pub mod Session
