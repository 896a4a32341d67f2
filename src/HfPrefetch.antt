-- ===== src/HfPrefetch.antt =====
-- roles/hf_prefetch_service/files/hf_prefetch_service.py: the Hugging Face prefetch daemon.
pub mod Config
pub mod Store
pub mod Load
pub mod Cache
pub mod Backoff
pub mod Commands
pub mod Machine
pub mod Reconcile
pub mod Daemon
mod Tests
