-- ===== src/Policy/Store.antt =====
-- The tables of policies and what is read from them (`PolicyBundle`, `_ensure_manage_rule_scopes`,
-- `_load_bundle`, `_visible_bundle`, `_selected_policy_versions`,
-- `_authorized_policy_version_status`, `get_policy_bundle`; the columns of
-- `PolicyDefinition`, `PolicyVersion`, `Store`, `Sku` and `Product`).
use rfid_inventory_replenish.Prelude.{
  ℕ, ltb, leb, Bool, true, not, ◌&&◌, ◌||◌, Option, none, some, List, [], ◌∷◌, map, find, select,
  any, all, sort_by, first_by, ltb_ℤ, eq_ℤ, ◌==◌, if◌then◌else◌,
}
use rfid_inventory_replenish.Domain.{
  Uuid, Text, Instant, Result, ok, raise, ◌>>=◌, forbidden, policy_scope_denied, policy_not_found,
  policy_version_not_found, policy_version_status_forbidden,
}
use rfid_inventory_replenish.Access.{
  Principal, has_permission, has_tenant_permission, store_ids_for_permission, can_access_store,
  policy_read, policy_manage,
}
use rfid_inventory_replenish.Policy.Rules.{PolicyRule}

pub data VersionStatus : Type 0 where
  draft active retired : VersionStatus

abbrev pub version_status_index : VersionStatus → ℕ
version_status_index active = 0
version_status_index draft = 1
version_status_index retired = 2

abbrev pub same_version_status : VersionStatus → VersionStatus → Bool
same_version_status a b = version_status_index a == version_status_index b

pub record PolicyDefinition : Type 0 where
  pub id : Uuid
  pub tenant_id : Uuid
  pub name : Text
  pub description : Option Text
  pub updated_at : Instant

pub record PolicyVersion : Type 0 where
  pub id : Uuid
  pub tenant_id : Uuid
  pub policy_id : Uuid
  pub version_number : ℕ
  pub status : VersionStatus
  pub activated_at : Option Instant
  pub activated_by_user_id : Option Uuid

pub data StoreStatus : Type 0 where
  provisioning active inactive : StoreStatus

pub record Store : Type 0 where
  pub id : Uuid
  pub tenant_id : Uuid
  pub status : StoreStatus

pub record Sku : Type 0 where
  pub id : Uuid
  pub tenant_id : Uuid
  pub product_variant_id : Option Uuid
  pub size : Text
  pub active : Bool

pub record ProductVariant : Type 0 where
  pub id : Uuid
  pub tenant_id : Uuid
  pub product_id : Uuid

pub record Product : Type 0 where
  pub id : Uuid
  pub tenant_id : Uuid
  pub style_code : Text
  pub category : Text
  pub active : Bool

pub record PolicyDb : Type 0 where
  pub policies : List PolicyDefinition
  pub versions : List PolicyVersion
  pub rules : List PolicyRule
  pub stores : List Store
  pub skus : List Sku
  pub variants : List ProductVariant
  pub products : List Product

pub record PolicyBundle : Type 0 where
  pub policy : PolicyDefinition
  pub version : PolicyVersion
  pub rules : List PolicyRule

-- `_ensure_manage_rule_scopes` reads only the store of each rule.
manages_scope : Principal → Option Uuid → Bool
manages_scope principal none = has_tenant_permission principal policy_manage
manages_scope principal (some store_id) = can_access_store principal policy_manage store_id

unfoldable pub ensure_manage_rule_scopes : Principal → List (Option Uuid) → Result (Unit {0})
unfolding manages_scope
ensure_manage_rule_scopes principal scopes =
    if not (has_permission principal policy_manage)
    then raise 403 forbidden
    else if not (all (manages_scope principal) scopes)
    then raise 403 policy_scope_denied
    else ok tt

abbrev pub rule_scopes : List PolicyRule → List (Option Uuid)
rule_scopes = map (λ rule. rule.store_id)

abbrev pub is_version : Uuid → Uuid → PolicyVersion → Bool
is_version tenant_id version_id row = row.tenant_id == tenant_id && row.id == version_id

abbrev pub is_policy : Uuid → Uuid → PolicyDefinition → Bool
is_policy tenant_id policy_id row = row.tenant_id == tenant_id && row.id == policy_id

abbrev pub is_rule_of : Uuid → Uuid → PolicyRule → Bool
is_rule_of tenant_id version_id row = row.tenant_id == tenant_id && row.version_id == version_id

-- ORDER BY priority DESC, id ASC
abbrev pub rule_order : PolicyRule → PolicyRule → Bool
rule_order a b = ltb_ℤ b.priority a.priority || (eq_ℤ a.priority b.priority && leb a.id b.id)

or_raise {ℓ} : {A : Type ℓ} → Option A → Result A → Result A
or_raise none e = e
or_raise (some a) e = ok a

unfoldable pub load_bundle : PolicyDb → Uuid → Uuid → Result PolicyBundle
unfolding or_raise
load_bundle db tenant_id version_id = do
  version ←
      or_raise (find (is_version tenant_id version_id) db.versions)
        (raise 404 policy_version_not_found)
  policy ←
      or_raise (find (is_policy tenant_id version.policy_id) db.policies)
        (raise 404 policy_not_found)
  ok (record {
    policy = policy;
    version = version;
    rules = sort_by rule_order (select (is_rule_of tenant_id version.id) db.rules);
  })

abbrev is_visible : List Uuid → PolicyRule → Bool
is_visible allowed rule = elim rule.store_id [
  | none ↦ true
  | some id ↦ any (λ (other : Uuid). id == other) allowed
]

unfoldable pub visible_bundle : PolicyBundle → Principal → Option PolicyBundle
visible_bundle bundle principal =
    if has_tenant_permission principal policy_read
    then some bundle
    else (let allowed = store_ids_for_permission principal policy_read in
        elim (select (is_visible allowed) bundle.rules) [
          | [] ↦ none
          | rule ∷ rules ↦ some (record bundle { rules = rule ∷ rules })
        ])

-- The ORDER BY of the window function, without and with a requested status.
unfoldable pub version_order : Option VersionStatus → PolicyVersion → PolicyVersion → Bool
version_order none a b =
    ltb (version_status_index a.status) (version_status_index b.status)
    || (same_version_status a.status b.status && leb b.version_number a.version_number)
version_order (some status) a b = leb b.version_number a.version_number

-- The version of rank 1 of one policy.
unfoldable pub selected_policy_version :
    PolicyDb → Uuid → Option VersionStatus → Uuid → Option PolicyVersion
unfolding version_order
selected_policy_version db tenant_id status policy_id = first_by (version_order status) (
    select
      (λ version.
        version.tenant_id == tenant_id
        && version.policy_id == policy_id
        && elim status [ none ↦ true | some wanted ↦ same_version_status version.status wanted ])
      db.versions)

unfoldable pub authorized_policy_version_status :
    Principal → Option VersionStatus → Result (Option VersionStatus)
authorized_policy_version_status principal requested =
    if has_permission principal policy_manage then ok requested else elim requested [
      | none ↦ ok (some active)
      | some status ↦
          if not (same_version_status status active)
          then raise 403 policy_version_status_forbidden
          else ok (some active)
    ]

unfoldable pub get_policy_bundle :
    PolicyDb → Principal → Uuid → Option VersionStatus → Result PolicyBundle
unfolding or_raise
get_policy_bundle db principal policy_id requested = do
  status ← authorized_policy_version_status principal requested
  version ←
      or_raise (selected_policy_version db principal.tenant_id status policy_id)
        (raise 404 policy_not_found)
  bundle ← load_bundle db principal.tenant_id version.id
  or_raise (visible_bundle bundle principal) (raise 404 policy_not_found)

-- The rules of the active versions of a tenant, which an evaluation reads.
abbrev pub is_active_rule : List PolicyVersion → Uuid → PolicyRule → Bool
is_active_rule versions tenant_id rule =
    rule.tenant_id == tenant_id
    && any (λ version. version.id == rule.version_id && same_version_status version.status active)
        versions

unfoldable pub active_rules : PolicyDb → Uuid → List PolicyRule
active_rules db tenant_id = select (is_active_rule db.versions tenant_id) db.rules
