-- ===== src/NgcImage.antt =====
-- roles/ngc_image_service/files/ngc_image_service.py: the container image sync daemon.
pub mod Config
pub mod Version
pub mod Select
pub mod Store
pub mod Backoff
pub mod Registry
pub mod Machine
pub mod Docker
pub mod Reconcile
pub mod Daemon
mod Tests
