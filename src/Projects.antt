-- ===== src/Projects.antt =====
-- internal/project/store.go: projects, their deployments on nodes, and the removals that a node
-- still has to carry out.
pub mod Revisions
pub mod Parsing
pub mod Tables
pub mod Folders
pub mod Writes
pub mod Rollout
pub mod Nodes
pub mod Register
pub mod Settled
pub mod Steps
pub mod Applied
pub mod Conflicts
pub mod Removed
pub mod Paths
mod Examples
