-- ===== src/ArchiveWatcher.antt =====
-- scripts/hf_archive_watcher.py: the archive of a model's releases.
pub mod Classify
pub mod Discover
pub mod Watch
mod Tests
