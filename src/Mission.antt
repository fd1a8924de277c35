-- ===== src/Mission.antt =====
-- mission.go: the task state machine of a node.
pub mod Wire
pub mod Run
pub mod Log
pub mod Keeps
pub mod Rounds
pub mod Wiring
pub mod Promise
pub mod Endings
pub mod Count
pub mod Binding
mod Examples
