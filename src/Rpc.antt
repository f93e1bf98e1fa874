-- ===== src/Rpc.antt =====
-- The RPC providers of a chain: apps/api/src/services/rpc-provider-manager.ts.
pub mod Manager
pub mod Failover
pub mod Health
mod Examples
