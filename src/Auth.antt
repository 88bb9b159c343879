-- ===== src/Auth.antt =====
-- internal/auth: who a caller is, and what the caller may do.
pub mod Identity
pub mod Middleware
pub mod Tokens
pub mod Permitted
pub mod Recent
