-- ===== src/Reports.antt =====
-- Reports on the gas usage of merchants: apps/api-service/src/reports.
pub mod Dates
pub mod Aggregation
pub mod Breakdown
pub mod Report
pub mod Scheduling
pub mod Settled
pub mod Sweeps
pub mod Pending
pub mod Adhoc
pub mod OnDemand
mod Examples
