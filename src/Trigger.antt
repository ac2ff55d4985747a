-- ===== src/Trigger.antt =====
-- internal/trigger: the webhook adapter.
pub mod Signature
pub mod Mapping
pub mod Dedupe
pub mod Handler
pub mod Listener
