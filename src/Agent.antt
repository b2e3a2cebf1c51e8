-- ===== src/Agent.antt =====
-- services/bedrock-proxy/src: the host agent that executes operations beside the containers.
pub mod Record
pub mod Store
pub mod Settings
pub mod Executor
pub mod Queue
pub mod Handler
pub mod Router
pub mod Scenarios
