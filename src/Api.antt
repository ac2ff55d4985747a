-- ===== src/Api.antt =====
-- api/v1alpha1: the custom resources, field by field.
mod Tasks
mod AgentClasses
mod TriggerClasses
unfoldable pub use Tasks.*
pub use AgentClasses.*
pub use TriggerClasses.*
