-- ===== src/Autoupgrade.antt =====
-- roles/vllm_stack_autoupgrade/files/vllm_stack_autoupgrade.py: the daemon that moves the serving
-- stack to a new image.
pub mod Config
pub mod Candidate
pub mod Quiet
pub mod Metrics
pub mod Command
pub mod Machine
pub mod Bounce
pub mod Loop
mod Tests
