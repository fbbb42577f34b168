-- ===== src/Auth/Permission.antt =====
-- What each role may do (apps/api/src/auth/permission.map.ts).
use ikg_studio_model_trainin.Common.{ℕ, Bool, List, [], ◌∷◌, ◌==◌, any}
use ikg_studio_model_trainin.Auth.Store.{UserRole}

pub data PermissionCode : Type 0 where
  user_read user_create user_update user_disable : PermissionCode
  user_enable user_unlock user_reset_password user_change_role : PermissionCode
  dataset_read dataset_create dataset_update dataset_archive : PermissionCode
  model_read model_create model_archive training_read_own : PermissionCode
  training_read_all training_create training_update_own training_control_own : PermissionCode
  training_control_all benchmark_read_own benchmark_read_all benchmark_create : PermissionCode
  benchmark_control_own benchmark_control_all artifact_read audit_read_resource : PermissionCode
  audit_read_global notification_read_own dataset_type_manage worker_manage : PermissionCode
  system_setting_manage : PermissionCode

abbrev permission_index : PermissionCode → ℕ
permission_index user_read = 0
permission_index user_create = 1
permission_index user_update = 2
permission_index user_disable = 3
permission_index user_enable = 4
permission_index user_unlock = 5
permission_index user_reset_password = 6
permission_index user_change_role = 7
permission_index dataset_read = 8
permission_index dataset_create = 9
permission_index dataset_update = 10
permission_index dataset_archive = 11
permission_index model_read = 12
permission_index model_create = 13
permission_index model_archive = 14
permission_index training_read_own = 15
permission_index training_read_all = 16
permission_index training_create = 17
permission_index training_update_own = 18
permission_index training_control_own = 19
permission_index training_control_all = 20
permission_index benchmark_read_own = 21
permission_index benchmark_read_all = 22
permission_index benchmark_create = 23
permission_index benchmark_control_own = 24
permission_index benchmark_control_all = 25
permission_index artifact_read = 26
permission_index audit_read_resource = 27
permission_index audit_read_global = 28
permission_index notification_read_own = 29
permission_index dataset_type_manage = 30
permission_index worker_manage = 31
permission_index system_setting_manage = 32

abbrev pub permission_eq : PermissionCode → PermissionCode → Bool
permission_eq p q = permission_index p == permission_index q

-- `ROLE_PERMISSIONS`.
unfoldable pub role_permissions : UserRole → List PermissionCode
role_permissions UserRole.admin =
    user_read ∷ user_create ∷ user_update ∷ user_disable ∷ user_enable ∷ user_unlock
    ∷ user_reset_password ∷ user_change_role ∷ dataset_read ∷ dataset_create ∷ dataset_update
    ∷ dataset_archive ∷ model_read ∷ model_create ∷ model_archive ∷ training_read_own
    ∷ training_read_all ∷ training_create ∷ training_update_own ∷ training_control_own
    ∷ training_control_all ∷ benchmark_read_own ∷ benchmark_read_all ∷ benchmark_create
    ∷ benchmark_control_own ∷ benchmark_control_all ∷ artifact_read ∷ audit_read_resource
    ∷ audit_read_global ∷ notification_read_own ∷ dataset_type_manage ∷ worker_manage
    ∷ system_setting_manage ∷ []
role_permissions UserRole.user =
    dataset_read ∷ dataset_create ∷ dataset_update ∷ model_read ∷ model_create ∷ training_read_own
    ∷ training_create ∷ training_update_own ∷ training_control_own ∷ benchmark_read_own
    ∷ benchmark_create ∷ benchmark_control_own ∷ artifact_read ∷ audit_read_resource
    ∷ notification_read_own ∷ []

-- `userPerms.includes(p)`.
unfoldable pub has_permission : UserRole → PermissionCode → Bool
unfolding role_permissions
has_permission role p = any (λ q. permission_eq q p) (role_permissions role)
