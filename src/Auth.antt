-- ===== src/Auth.antt =====
-- apps/server/controlplane/src/auth/service.py: accounts, invitations, sessions and the audit log.
pub mod Tables
pub mod Transaction
pub mod Access
pub mod Logins
pub mod Sessions
pub mod Lockout
pub mod Owners
pub mod Scenarios
