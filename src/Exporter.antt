-- ===== src/Exporter.antt =====
-- exporter/: the metrics that collectors send, and the registry of collectors.
pub mod Metric
pub mod Collector
mod Tests
