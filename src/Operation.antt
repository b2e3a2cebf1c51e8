-- ===== src/Operation.antt =====
-- apps/server/controlplane/src/operations: the tracked server operations of the control plane.
pub mod Lifecycle
pub mod Service
pub mod Worker
pub mod Scenarios
