-- ===== src/Cache.antt =====
-- The cache of gas queries: apps/api-service/src/gas/caching.
pub mod Config
pub mod Memory
pub mod Metrics
pub mod Service
pub mod Calls
pub mod Freshness
mod Examples
