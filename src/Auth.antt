-- ===== src/Auth.antt =====
-- Sessions, permissions, and the guard that admits requests (apps/api/src/auth).
pub mod Store
pub mod Session
pub mod Permission
pub mod Guard
pub mod Login
pub mod Password
