-- ===== src/SparkStatus.antt =====
-- scripts/spark_model_status.py: probes the leader and the prefetch state, and switches the served
-- model over.
pub mod Command
pub mod Machine
pub mod Cutover
pub mod Observe
pub mod Main
pub mod Probe
pub mod Report
mod Tests
