-- ===== src/Oauth.antt =====
-- internal/auth/oauth.go: authorization codes, grants with rotating refresh tokens, and access.
pub mod Texts
pub mod Urls
pub mod Grants
pub mod Exchange
pub mod Access
pub mod Replay
pub mod Denied
pub mod Rotation
pub mod Clients
pub mod Registration
pub mod Registered
pub mod Issued
pub mod Steps
pub mod References
pub mod Enrolled
pub mod Redeemed
pub mod Integrity
mod Packing
mod Examples
mod ClientExamples
