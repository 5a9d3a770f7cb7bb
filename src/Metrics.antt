-- ===== src/Metrics.antt =====
-- internal/metrics: the in-memory request log.
pub mod LogStore
pub mod AccessLog
