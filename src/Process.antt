-- ===== src/Process.antt =====
-- cmd: the process that runs the controller and the adapter.
pub mod Options
pub mod Running
