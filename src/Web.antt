-- ===== src/Web.antt =====
-- internal/auth/web.go: the login of the administrator on the web pages, and its throttling.
pub mod Passwords
pub mod Throttle
pub mod Login
pub mod Blocked
mod Examples
