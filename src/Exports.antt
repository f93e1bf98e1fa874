-- ===== src/Exports.antt =====
-- The export of the gas usage of a wallet as CSV: apps/api/src/exports.
pub mod Record
pub mod Slices
pub mod Csv
pub mod Reader
pub mod Cells
pub mod Table
pub mod RoundTrip
pub mod Chain
pub mod Collect
pub mod HashSet
pub mod Hashes
pub mod Order
pub mod Network
pub mod Service
pub mod Streams
mod Examples
