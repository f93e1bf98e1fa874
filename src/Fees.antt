-- ===== src/Fees.antt =====
-- Protocol fees, their approval and their timelock:
-- apps/api-service/src/gas-estimation/services/fee-configuration.service.ts.
pub mod Config
pub mod Rules
pub mod Store
pub mod Updates
pub mod Approvals
pub mod Queries
pub mod Steps
pub mod Signing
pub mod Quorum
pub mod Runs
pub mod Audit
pub mod Waiting
pub mod Timelock
pub mod Approval
pub mod Prices
pub mod Priced
mod Examples
