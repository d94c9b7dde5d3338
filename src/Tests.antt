-- ===== src/Tests.antt =====
-- Runs on concrete data, and the theorems at such data.
pub mod Data
pub mod Client
mod Provider
mod Stores
mod Host
mod Images
mod Net
mod Ssh
pub mod Startup
mod Program
mod Metrics
mod Volumes
mod Event
mod Overlap
