-- ===== src/Node.antt =====
-- node.go: the executor of a node.
pub mod Executor
pub mod Fifo
mod Examples
