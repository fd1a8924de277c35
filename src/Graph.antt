-- ===== src/Graph.antt =====
-- internal/graph: the checks of an application's graph before it runs.
pub mod Scan
pub mod Issues
pub mod Frames
pub mod Silent
pub mod Named
pub mod Collect
pub mod Offers
pub mod Unique
pub mod Agree
pub mod Clean
pub mod Sound
pub mod Reach
pub mod Marked
pub mod Order
pub mod Mirror
pub mod Agreement
pub mod Wires
mod Examples
pub mod Channels
pub mod Build
pub mod Std
pub mod Checks
pub mod Machines
pub mod Missions
pub mod Stacks
pub mod Pairs
pub mod Validate
