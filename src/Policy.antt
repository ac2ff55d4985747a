-- ===== src/Policy.antt =====
-- internal/policy: what the controller generates for a Task, and what it accepts from it.
pub mod Labels
pub mod Egress
pub mod Rbac
pub mod Secrets
pub mod Prompt
pub mod Config
pub mod Outcome
