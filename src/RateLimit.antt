-- ===== src/RateLimit.antt =====
-- Request quotas of API keys: apps/api/src/rate-limiting.
pub mod Plans
pub mod Redis
pub mod Config
pub mod Service
pub mod Guard
pub mod Counters
pub mod Admission
pub mod Bound
pub mod Admin
pub mod Refusal
mod Local
mod Examples
