-- ===== src/Auth.antt =====
-- internal/service/auth.go: the authentication service.
pub mod Validation
pub mod Config
pub mod Tokens
pub mod Service
pub mod Rotation
pub mod Credentials
pub mod Registration
mod Tests
