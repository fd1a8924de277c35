-- ===== src/Action.antt =====
-- action.go: the server of an action.
pub mod Server
pub mod Evolve
pub mod Steps
pub mod Promise
pub mod Answers
mod Examples
