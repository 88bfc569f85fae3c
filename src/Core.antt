-- ===== src/Core.antt =====
-- src/core: the configuration, its loader, and the router.
pub mod Config
pub mod Router
pub mod Loader
pub mod Gateway
