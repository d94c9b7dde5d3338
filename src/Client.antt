-- ===== src/Client.antt =====
-- The process client, pkg/client: it runs the first container of a pod as a host process.
pub mod Calls
pub mod Process
pub mod Exit
pub mod Create
pub mod Delete
pub mod Query
pub mod Invariant
pub mod Reach
pub mod Overlap
pub mod Contract
pub mod User
