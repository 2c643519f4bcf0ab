-- ===== src/Kernel.antt =====
-- The kernel (src/kernel): its parts, one module each.
pub mod Routing
pub mod Protocol
pub mod Orchestrator
pub mod MergeState
pub mod Quota
pub mod Lifecycle
pub mod Interrupts
pub mod Resources
pub mod AgentContext
pub mod AgentOutput
pub mod Dispatch
pub mod Actor
