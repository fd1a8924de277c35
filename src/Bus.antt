-- ===== src/Bus.antt =====
-- bus.go and qos.go: the in-process transport and the profiles of its topics.
pub mod Qos
pub mod Inproc
pub mod History
pub mod Late
pub mod Race
pub mod Servers
mod Examples
