-- ===== src/ApiKeys.antt =====
-- API keys of merchants: apps/api-service/src/audit/services/api-key*.ts and
-- entities/api-key.entity.ts, and the guard apps/api-service/src/auth/guards/api-key-auth.guard.ts.
pub mod Key
pub mod Service
pub mod Calls
pub mod Updates
pub mod Outcomes
pub mod Lifecycle
pub mod Guard
pub mod Validation
mod Examples
