-- ===== src/Proxy.antt =====
-- src/proxy: what stands between the gateway and its backends.
pub mod CircuitBreaker
pub mod LoadBalancer
pub mod BackendConnection
pub mod BackendPool
pub mod Forwarding
pub mod HealthChecker
