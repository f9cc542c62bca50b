-- ===== src/Auth.antt =====
-- Authentication, internal/auth: settings, local users, access tokens and the HTTP middleware.
pub mod Service
pub mod Settings
pub mod Middleware
