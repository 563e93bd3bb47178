-- ===== src/Tests.antt =====
-- Concrete inputs: a JSON library, a broker and clients, with the theorems applied to them.
pub mod Tree
mod Topics
pub mod Configs
mod Requests
pub mod Sessions
pub mod Handlers
mod Runs
pub mod Lifetimes
mod Programs
mod Managed
mod Updates
