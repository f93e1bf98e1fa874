-- ===== src/Spikes.antt =====
-- Alerts on gas price spikes: src/modules/gas-spike-alert.
pub mod Config
pub mod Classifier
pub mod Engine
pub mod Webhooks
pub mod Monitor
pub mod Severities
pub mod Delivery
pub mod History
pub mod Alerts
mod Examples
