-- ===== src/Access/Scopes.antt =====
-- What `can_access_store` grants: exactly what one of the principal's role scopes grants.
use rfid_inventory_replenish.Prelude.{
  ◌≡◌, refl, Bool, true, ◌&&◌, ◌||◌, none, some, List, [], ◌∷◌, arith, any, ◌==◌, is_none,
}
use rfid_inventory_replenish.Domain.{Uuid}
use rfid_inventory_replenish.Access.{
  Permission, RoleScope, Principal, permits, has_tenant_permission, store_ids_of,
  store_ids_for_permission, can_access_store,
}

-- Does the scope cover the store: all stores of the tenant, or this one.
unfoldable pub covers : Permission → Uuid → RoleScope → Bool
covers permission store_id scope =
    permits scope.role permission && elim scope.store_id [ none ↦ true | some id ↦ store_id == id ]

module _ (permission : Permission) (store_id : Uuid) where
  scopes_cover :
      (scopes : List RoleScope)
      → (any (λ scope. is_none scope.store_id && permits scope.role permission) scopes
          || any (λ (id : Uuid). store_id == id) (store_ids_of permission scopes))
        ≡ any (covers permission store_id) scopes
  unfolding any store_ids_of covers
  scopes_cover [] = refl
  scopes_cover (scope ∷ rest) = ground (arith, scopes_cover rest)

  -- A principal may use a permission at a store exactly when one of its role scopes has a role
  -- with the permission and is tenant-wide or names that store.
  pub can_access_store-covers :
      (principal : Principal)
      → can_access_store principal permission store_id
        ≡ any (covers permission store_id) principal.role_scopes
  unfolding can_access_store has_tenant_permission store_ids_for_permission
  can_access_store-covers principal = scopes_cover principal.role_scopes

  covers-permits :
      (scopes : List RoleScope)
      → any (covers permission store_id) scopes ≡ true
      → any (λ scope. permits scope.role permission) scopes ≡ true
  unfolding any covers
  covers-permits [] h = h
  covers-permits (scope ∷ rest) h = ground (arith, covers-permits rest)
