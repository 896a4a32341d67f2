-- ===== src/MassiveMirror.antt =====
-- scripts/massive_flatfile_mirror.py: the mirror of the flat files into a bucket.
pub mod Config
pub mod Sync
pub mod Source
mod Tests
