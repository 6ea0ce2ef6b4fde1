-- ===== src/Access.antt =====
-- Roles, permissions and principals (`src/abacus/security.py`: `Permission`,
-- `ROLE_PERMISSIONS`, `RoleScope`, `Principal`).
pub mod Scopes
pub mod Tests
use rfid_inventory_replenish.Prelude.{
  ℕ, ◌≤◌, leb, Bool, true, false, not, ◌&&◌, ◌||◌, Option, none, some, List, [], ◌∷◌, ◌++◌, map,
  any, select, ◌==◌, ◌==?◌, is_none, is_some, if◌then◌else◌,
}
use rfid_inventory_replenish.Domain.{Uuid, Instant}

pub data Permission : Type 0 where
  tenant_configure users_create users_read users_suspend identity_audit_read : Permission
  catalog_ingest catalog_read inventory_adjust inventory_read policy_read : Permission
  policy_manage replenishment_read replenishment_manage replenishment_execute : Permission

pub data IdentityRole : Type 0 where
  corporate_admin store_manager store_associate : IdentityRole

pub data CanonicalIdentityRole : Type 0 where
  tenant_admin corporate_user store_manager store_associate : CanonicalIdentityRole

-- AuthorizationRole = IdentityRole | CanonicalIdentityRole
pub data AuthorizationRole : Type 0 where
  legacy : IdentityRole → AuthorizationRole
  canonical : CanonicalIdentityRole → AuthorizationRole

abbrev permission_index : Permission → ℕ
permission_index tenant_configure = 0
permission_index users_create = 1
permission_index users_read = 2
permission_index users_suspend = 3
permission_index identity_audit_read = 4
permission_index catalog_ingest = 5
permission_index catalog_read = 6
permission_index inventory_adjust = 7
permission_index inventory_read = 8
permission_index policy_read = 9
permission_index policy_manage = 10
permission_index replenishment_read = 11
permission_index replenishment_manage = 12
permission_index replenishment_execute = 13

abbrev pub same_permission : Permission → Permission → Bool
same_permission p q = permission_index p == permission_index q

-- frozenset(Permission)
abbrev all_permissions : List Permission
all_permissions =
    tenant_configure ∷ users_create ∷ users_read ∷ users_suspend ∷ identity_audit_read
    ∷ catalog_ingest ∷ catalog_read ∷ inventory_adjust ∷ inventory_read ∷ policy_read
    ∷ policy_manage ∷ replenishment_read ∷ replenishment_manage ∷ replenishment_execute ∷ []

abbrev manager_permissions : List Permission
manager_permissions =
    users_create ∷ users_read ∷ users_suspend ∷ catalog_read ∷ inventory_adjust ∷ inventory_read
    ∷ policy_read ∷ replenishment_read ∷ replenishment_manage ∷ replenishment_execute ∷ []

abbrev associate_permissions : List Permission
associate_permissions =
    catalog_read ∷ inventory_read ∷ policy_read ∷ replenishment_read ∷ replenishment_execute ∷ []

-- ROLE_PERMISSIONS
unfoldable pub role_permissions : AuthorizationRole → List Permission
role_permissions (legacy IdentityRole.corporate_admin) = all_permissions
role_permissions (legacy IdentityRole.store_manager) = manager_permissions
role_permissions (legacy IdentityRole.store_associate) = associate_permissions
role_permissions (canonical CanonicalIdentityRole.tenant_admin) = all_permissions
role_permissions (canonical CanonicalIdentityRole.corporate_user) =
    catalog_read ∷ inventory_read ∷ policy_read ∷ replenishment_read ∷ []
role_permissions (canonical CanonicalIdentityRole.store_manager) = manager_permissions
role_permissions (canonical CanonicalIdentityRole.store_associate) = associate_permissions

-- permission in ROLE_PERMISSIONS[role]
unfoldable pub permits : AuthorizationRole → Permission → Bool
unfolding role_permissions any
permits role permission = any (same_permission permission) (role_permissions role)

pub record RoleScope : Type 0 where
  pub role : AuthorizationRole
  pub store_id : Option Uuid

pub record Principal : Type 0 where
  pub user_id : Uuid
  pub tenant_id : Uuid
  pub role_scopes : List RoleScope
  pub canonical_roles : List CanonicalIdentityRole
  pub assigned_store_ids : List Uuid
  pub session_id : Option Uuid

-- permission in self.permissions, the union over the scopes
unfoldable pub has_permission : Principal → Permission → Bool
has_permission self permission = any (λ scope. permits scope.role permission) self.role_scopes

unfoldable pub has_tenant_permission : Principal → Permission → Bool
has_tenant_permission self permission =
    any (λ scope. is_none scope.store_id && permits scope.role permission) self.role_scopes

store_ids_of : Permission → List RoleScope → List Uuid
store_ids_of permission [] = []
store_ids_of permission (scope ∷ rest) =
    let ids = store_ids_of permission rest in
    elim scope.store_id [
      | none ↦ ids
      | some store_id ↦ if permits scope.role permission then store_id ∷ ids else ids
    ]

unfoldable pub store_ids_for_permission : Principal → Permission → List Uuid
unfolding store_ids_of
store_ids_for_permission self permission = store_ids_of permission self.role_scopes

unfoldable pub can_access_store : Principal → Permission → Uuid → Bool
can_access_store self permission store_id =
    has_tenant_permission self permission
    || any (λ (id : Uuid). store_id == id) (store_ids_for_permission self permission)
