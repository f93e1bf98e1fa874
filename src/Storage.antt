-- ===== src/Storage.antt =====
-- What the services rely on of the packages that store their data.
pub mod Ordered
pub mod Repository
pub mod Memory
pub mod OrderedMemory
pub mod Queries
