-- ===== src/Tests.antt =====
-- Concrete data, and runs of the theorems on it.
pub mod Data
mod Picks
mod Queue
mod Requests
mod Names
mod Claims
mod Durable
mod Work
mod Settings
