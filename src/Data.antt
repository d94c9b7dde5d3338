-- ===== src/Data.antt =====
-- internal/data: what the node remembers of its virtual machines and of its containers.
pub mod Machines
pub mod Containers
