-- ===== src/Bringup.antt =====
-- bringup.go: the order in which the nodes of an application are brought up.
pub mod Deps
pub mod Kahn
pub mod Edges
pub mod Sort
pub mod Release
pub mod Invariant
pub mod Order
pub mod Promise
mod Examples
