-- ===== src/Recall.antt =====
-- internal/recall: the lifecycle records of managed experience, and the edits of notes.
pub mod Records
pub mod Lifecycle
pub mod Operations
pub mod Retries
pub mod Advance
pub mod Lines
pub mod Sections
pub mod Replacement
pub mod Facts
pub mod Kept
pub mod Diffs
pub mod Patching
pub mod Limits
mod Examples
