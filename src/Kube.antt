-- ===== src/Kube.antt =====
-- The Kubernetes structs that the program builds and reads, cut to the fields that it names.
mod Meta
mod Pods
mod Policies
pub use Meta.*
pub use Pods.*
pub use Policies.*
