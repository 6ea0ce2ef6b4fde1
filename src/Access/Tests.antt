-- ===== src/Access/Tests.antt =====
-- Principals for the tests, and runs of the access checks.
use rfid_inventory_replenish.Prelude.{◌≡◌, refl, true, false, none, some, [], ◌∷◌, any}
use rfid_inventory_replenish.Access.{
  canonical, CanonicalIdentityRole, Principal, replenishment_manage, replenishment_execute,
  can_access_store, has_tenant_permission, store_ids_for_permission, permits,
}
use rfid_inventory_replenish.Access.Scopes.{covers, can_access_store-covers}

-- A manager of store 7, and an associate of the stores 7 and 8.
abbrev pub manager : Principal
manager = record {
  user_id = 1;
  tenant_id = 5;
  role_scopes =
      record { role = canonical CanonicalIdentityRole.store_manager; store_id = some 7 } ∷ [];
  canonical_roles = CanonicalIdentityRole.store_manager ∷ [];
  assigned_store_ids = 7 ∷ [];
  session_id = none;
}

abbrev pub associate : Principal
associate = record {
  user_id = 2;
  tenant_id = 5;
  role_scopes =
      record { role = canonical CanonicalIdentityRole.store_associate; store_id = some 7 }
      ∷ record { role = canonical CanonicalIdentityRole.store_associate; store_id = some 8 }
      ∷ [];
  canonical_roles = CanonicalIdentityRole.store_associate ∷ [];
  assigned_store_ids = 7 ∷ 8 ∷ [];
  session_id = none;
}

abbrev pub admin : Principal
admin = record {
  user_id = 3;
  tenant_id = 5;
  role_scopes =
      record { role = canonical CanonicalIdentityRole.tenant_admin; store_id = none } ∷ [];
  canonical_roles = CanonicalIdentityRole.tenant_admin ∷ [];
  assigned_store_ids = [];
  session_id = none;
}

associate_executes : can_access_store associate replenishment_execute 8 ≡ true
unfolding can_access_store has_tenant_permission store_ids_for_permission permits any
associate_executes = refl

associate_does_not_manage : can_access_store associate replenishment_manage 8 ≡ false
unfolding can_access_store has_tenant_permission store_ids_for_permission permits any
associate_does_not_manage = refl

can_access_store-covers_example :
    can_access_store associate replenishment_execute 8
    ≡ any (covers replenishment_execute 8) associate.role_scopes
can_access_store-covers_example = can_access_store-covers replenishment_execute 8 associate
