-- ===== src/Subsidy.antt =====
-- The subsidy of gas by caps on wallets: apps/api-service/src/gas-subsidy.
pub mod Entity
pub mod Store
pub mod Check
pub mod Usage
pub mod Checked
pub mod Tables
pub mod Periods
pub mod Calls
pub mod Accepted
pub mod Active
pub mod Summary
pub mod Counts
mod Examples
