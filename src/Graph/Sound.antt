-- ===== src/Graph/Sound.antt =====
-- internal/graph: the checks find an error exactly where the application has one.
pub mod Fields
pub mod Frames
pub mod Missions
pub mod Pairs
pub mod Stacks
pub mod Promise
pub mod Served
