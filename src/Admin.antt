-- ===== src/Admin.antt =====
-- Administration (apps/api/src/admin).
pub mod Users
