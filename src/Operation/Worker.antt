-- ===== src/Operation/Worker.antt =====
-- operations/service.py: the thread that carries out an operation, the reconciliation of a failed
-- one with the server, and the reclaim of one whose thread has died.
pub mod State
pub mod Observe
pub mod Health
pub mod Stages
pub mod Reclaim
pub mod Reconcile
pub mod Threads
mod Scenarios
