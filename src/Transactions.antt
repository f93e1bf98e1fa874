-- ===== src/Transactions.antt =====
-- Limits on the transactions of a merchant, and suspicious ones: apps/api-service/src/transection.
pub mod Limiter
pub mod Window
pub mod Bound
pub mod Retry
pub mod Suspicious
pub mod Burst
mod Examples
