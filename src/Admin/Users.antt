-- ===== src/Admin/Users.antt =====
-- The accounts, as an ADMIN manages them (apps/api/src/admin/users/admin-users.service.ts).
pub mod Rows
pub mod Status
pub mod Creating
pub mod Editing
pub mod Sessions
pub mod Guarded
pub mod Admins
pub mod Accounts
pub mod Runs
pub mod Laws
