-- ===== src/Frames.antt =====
-- frames.go: the declared transform tree.
pub mod Tree
pub mod Shape
mod Routes
mod Search
mod Visits
mod Promise
mod Answers
mod Examples
mod Cycles
