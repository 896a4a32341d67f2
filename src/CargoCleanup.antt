-- ===== src/CargoCleanup.antt =====
-- scripts/cargo_cleanup.py: runs `cargo clean` once for each top-level Cargo workspace.
pub mod Roots
pub mod Clean
mod Tests
