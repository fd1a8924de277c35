-- ===== src/Clock.antt =====
-- clock.go: the clock of a simulation.
pub mod Sim
pub mod Keeps
pub mod Promise
mod Examples
