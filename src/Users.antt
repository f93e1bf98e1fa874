-- ===== src/Users.antt =====
-- Users, roles and login: apps/api-service/src/rbac, auth and database/entities/user.entity.ts.
pub mod Role
pub mod User
pub mod Guard
pub mod Service
pub mod Calls
pub mod Effect
pub mod Emails
pub mod Auth
pub mod Login
pub mod Lockout
pub mod Unlock
pub mod Stats
mod Examples
