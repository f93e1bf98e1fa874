-- ===== src/Analysis.antt =====
-- The registry of the analyzers of source code: libs/engine/core.
pub mod Analyzer
pub mod Results
pub mod Registry
pub mod Removal
pub mod Index
pub mod Runs
mod Examples
