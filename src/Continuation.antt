-- ===== src/Continuation.antt =====
-- internal/project/continuation.go: the continuation of a work session.
pub mod Types
pub mod Document
pub mod Store
pub mod Targets
pub mod Outcomes
pub mod Receipts
pub mod Control
pub mod Controller
pub mod Dispatch
pub mod Consume
pub mod Ensures
pub mod Evolution
pub mod Attempts
pub mod Sound
pub mod Safety
pub mod ViewSafety
pub mod Advance
pub mod Batch
pub mod History
pub mod Once
pub mod Expiry
pub mod Reads
pub mod Compaction
pub mod Replays
pub mod Retention
mod Run
mod Examples
mod TableExamples
