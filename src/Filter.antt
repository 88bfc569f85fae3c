-- ===== src/Filter.antt =====
-- src/filter: what the gateway runs on a request before it is routed.
pub mod RateLimit
pub mod Chain
