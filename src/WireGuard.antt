-- ===== src/WireGuard.antt =====
-- roles/wireguard/files/wireguard_healthcheck.py: the health check of an interface.
pub mod Health
pub mod Mac
mod Tests
