-- ===== src/Sessions.antt =====
-- internal/project/session.go and delivery.go: work sessions, their targets, and the delivery of
-- their context.
pub mod Tables
pub mod Opening
pub mod Listing
pub mod Binding
pub mod Revocation
pub mod Delivery
pub mod Retries
pub mod Keys
pub mod Revoked
pub mod Consumption
mod Examples
