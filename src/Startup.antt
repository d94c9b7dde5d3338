-- ===== src/Startup.antt =====
-- cmd/virtual-kubelet: the start of the node.
pub mod Options
pub mod Tracing
pub mod Port
pub mod Provider
pub mod Run
pub mod Settings
pub mod Started
pub mod Main
