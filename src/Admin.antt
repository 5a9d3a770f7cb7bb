-- ===== src/Admin.antt =====
-- internal/api/admin/auth.go: who may use the admin API.
pub mod Session
pub mod Users
pub mod Auth
pub mod Examples
