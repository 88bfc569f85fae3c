-- ===== src/Monitor.antt =====
-- The counters of the gateway, src/monitor.
pub mod Stats
