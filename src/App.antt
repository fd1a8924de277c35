-- ===== src/App.antt =====
-- run.go: how an application brings its nodes up and shuts them down.
pub mod Nodes
pub mod Up
pub mod Promise
pub mod Down
mod Examples
