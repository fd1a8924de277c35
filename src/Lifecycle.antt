-- ===== src/Lifecycle.antt =====
-- lifecycle.go and lifecycle_wire.go: the managed-node state machine of one node.
pub mod States
pub mod Machine
pub mod Services
pub mod Serial
pub mod Outcomes
pub mod History
pub mod Race
mod Examples
