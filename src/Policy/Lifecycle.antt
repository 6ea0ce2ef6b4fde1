-- ===== src/Policy/Lifecycle.antt =====
-- Creating, cloning, changing and activating a policy version (`_new_rule`, `create_policy`,
-- `clone_policy_version`, `patch_policy_version`, `activate_policy_version` of
-- `src/abacus/services/replenishment.py`). A result comes with the tables after the transaction:
-- the committed ones, or after an error those that it began with. `conflict` says that the
-- database reports an IntegrityError at the flush or the commit. Ids of new rows are arguments.
use rfid_inventory_replenish.Prelude.{
  ℕ, suc, ◌+◌, max, leb, Bool, true, false, not, ◌&&◌, ◌||◌, Option, none, some, List, [], ◌∷◌,
  ◌++◌, map, find, select, any, update_where, first_by, ◌==◌, if◌then◌else◌,
}
use rfid_inventory_replenish.Domain.{
  Uuid, Text, Instant, Result, ok, err, raise, ◌>>◌, policy_not_found, policy_version_not_found,
  policy_creation_conflict, policy_has_no_version, policy_version_conflict,
  policy_version_immutable, policy_rule_update_conflict, policy_version_retired, empty_policy,
  active_policy_overlap, policy_activation_conflict,
}
use rfid_inventory_replenish.Access.{Principal}
use rfid_inventory_replenish.Policy.Rules.{
  PolicyRule, PolicyRuleWrite, descriptor, descriptor_of_write, rules_overlap,
}
use rfid_inventory_replenish.Policy.Store.{
  draft, active, retired, same_version_status, PolicyDefinition, PolicyVersion, PolicyDb,
  PolicyBundle, ensure_manage_rule_scopes, rule_scopes, is_version, is_policy, is_rule_of,
  load_bundle,
}
use rfid_inventory_replenish.Policy.Validation.{validate_rules}

-- Goes on with the value of a check that passed; a raise leaves the tables alone.
unfoldable pub attempt {ℓ} :
    {A : Type ℓ}
    → Result A
    → PolicyDb
    → (A → Result PolicyBundle × PolicyDb)
    → Result PolicyBundle × PolicyDb
attempt (ok a) db k = k a
attempt (err e) db k = (err e, db)

new_rule : Uuid → Uuid → Uuid → PolicyRuleWrite → PolicyRule
new_rule tenant_id version_id id request = record {
  id = id;
  tenant_id = tenant_id;
  version_id = version_id;
  store_id = request.store_id;
  category = request.category;
  style_code = request.style_code;
  sku_id = request.sku_id;
  size = request.size;
  min_floor_qty = request.min_floor_qty;
  target_floor_qty = request.target_floor_qty;
  priority = request.priority;
}

-- The rows of the requested rules; `fresh n` is the id of the n-th.
unfoldable pub new_rules : Uuid → Uuid → (ℕ → Uuid) → ℕ → List PolicyRuleWrite → List PolicyRule
unfolding new_rule
new_rules tenant_id version_id fresh n [] = []
new_rules tenant_id version_id fresh n (request ∷ requests) =
    new_rule tenant_id version_id (fresh n) request
    ∷ new_rules tenant_id version_id fresh (suc n) requests

-- The rows of a clone: the source's, under the new version.
unfoldable pub cloned_rules : Uuid → Uuid → (ℕ → Uuid) → ℕ → List PolicyRule → List PolicyRule
cloned_rules tenant_id version_id fresh n [] = []
cloned_rules tenant_id version_id fresh n (rule ∷ rules) =
    record rule { id = fresh n; tenant_id = tenant_id; version_id = version_id }
    ∷ cloned_rules tenant_id version_id fresh (suc n) rules

abbrev write_scopes : List PolicyRuleWrite → List (Option Uuid)
write_scopes = map (λ rule. rule.store_id)

-- `func.max(version_number) or 0`
latest_number : List PolicyVersion → ℕ
latest_number [] = 0
latest_number (version ∷ versions) = max version.version_number (latest_number versions)

-- The rules of active versions of other policies.
unfoldable pub other_active_rules : PolicyDb → Uuid → Uuid → List PolicyRule
other_active_rules db tenant_id policy_id =
    select
      (λ rule.
        rule.tenant_id == tenant_id
        && any
            (λ version.
              version.id == rule.version_id
              && same_version_status version.status active
              && not (version.policy_id == policy_id))
            db.versions)
      db.rules

-- The two writes: the active version of the policy is retired, and the draft becomes active.
unfoldable pub switch_active :
    Uuid → Uuid → Uuid → Instant → List PolicyVersion → List PolicyVersion
switch_active policy_id version_id user_id now versions =
    update_where (λ row. row.id == version_id)
      (λ row. record row {
        status = active;
        activated_at = some now;
        activated_by_user_id = some user_id;
      })
      (update_where
        (λ row.
          row.policy_id == policy_id
          && same_version_status row.status active
          && not (row.id == version_id))
        (λ row. record row { status = retired }) versions)

module _ (casefold upper sql_upper : Text → Text) where
  unfoldable pub create_policy :
      PolicyDb
      → Principal
      → Text
      → Option Text
      → List PolicyRuleWrite
      → Uuid
      → Uuid
      → (ℕ → Uuid)
      → Instant
      → Bool
      → Result PolicyBundle × PolicyDb
  unfolding attempt
  create_policy db principal name description rules policy_id version_id fresh now conflict =
      let tenant_id = principal.tenant_id in
      attempt
        (do
          ensure_manage_rule_scopes principal (write_scopes rules)
          validate_rules casefold upper sql_upper db tenant_id (map descriptor_of_write rules))
        db
        λ _.
          if conflict || any (λ row. row.tenant_id == tenant_id && row.name == name) db.policies
          then (raise 409 policy_creation_conflict, db)
          else (let policy : PolicyDefinition = record {
            id = policy_id;
            tenant_id = tenant_id;
            name = name;
            description = description;
            updated_at = now;
          } in
              let version : PolicyVersion = record {
                id = version_id;
                tenant_id = tenant_id;
                policy_id = policy_id;
                version_number = 1;
                status = draft;
                activated_at = none;
                activated_by_user_id = none;
              } in
              let db' : PolicyDb = record db {
                policies = db.policies ++ policy ∷ [];
                versions = db.versions ++ version ∷ [];
                rules = db.rules ++ new_rules tenant_id version_id fresh 0 rules;
              } in
              (load_bundle db' tenant_id version_id, db'))

  -- The checks of a patch, once the version is found.
  unfoldable pub check_rules_patch :
      PolicyDb → Principal → PolicyVersion → List PolicyRuleWrite → Result (Unit {0})
  check_rules_patch db principal version rules = do
    ensure_manage_rule_scopes principal
        (rule_scopes (select (is_rule_of principal.tenant_id version.id) db.rules))
    if not (same_version_status version.status draft)
        then raise 409 policy_version_immutable
        else ok tt
    ensure_manage_rule_scopes principal (write_scopes rules)
    validate_rules casefold upper sql_upper db principal.tenant_id (map descriptor_of_write rules)

  unfoldable pub patch_policy_version :
      PolicyDb
      → Principal
      → Uuid
      → List PolicyRuleWrite
      → (ℕ → Uuid)
      → Bool
      → Result PolicyBundle × PolicyDb
  unfolding attempt
  patch_policy_version db principal version_id rules fresh conflict =
      let tenant_id = principal.tenant_id in
      elim (find (is_version tenant_id version_id) db.versions) [
        | none ↦ (raise 404 policy_version_not_found, db)
        | some version ↦ attempt (check_rules_patch db principal version rules) db λ _.
            if conflict
            then (raise 409 policy_rule_update_conflict, db)
            else (let kept = select (λ rule. not (rule.version_id == version.id)) db.rules in
                let db' : PolicyDb = record db {
                  rules = kept ++ new_rules tenant_id version.id fresh 0 rules;
                } in
                (load_bundle db' tenant_id version.id, db'))
      ]

  -- The loop over the rules of the draft.
  unfoldable pub overlaps_active : List PolicyRule → List PolicyRule → Bool
  overlaps_active drafts actives =
      any
        (λ rule. any (λ other. rules_overlap casefold (descriptor rule) (descriptor other)) actives)
        drafts

  is_empty_rules : List PolicyRule → Bool
  is_empty_rules [] = true
  is_empty_rules (rule ∷ rules) = false

  -- The checks of an activation, for a version that is not active already.
  unfoldable pub check_activation : PolicyDb → Uuid → PolicyBundle → Result (Unit {0})
  unfolding is_empty_rules
  check_activation db tenant_id bundle = do
    if not (same_version_status bundle.version.status draft)
        then raise 409 policy_version_retired
        else ok tt
    if is_empty_rules bundle.rules then raise 422 empty_policy else ok tt
    validate_rules casefold upper sql_upper db tenant_id (map descriptor bundle.rules)
    if overlaps_active bundle.rules (other_active_rules db tenant_id bundle.policy.id)
        then raise 409 active_policy_overlap
        else ok tt

  unfoldable pub activate_policy_version :
      PolicyDb → Principal → Uuid → Instant → Bool → Result PolicyBundle × PolicyDb
  unfolding attempt
  activate_policy_version db principal version_id now conflict =
      let tenant_id = principal.tenant_id in
      attempt (load_bundle db tenant_id version_id) db λ bundle.
        attempt (ensure_manage_rule_scopes principal (rule_scopes bundle.rules)) db λ _.
          if same_version_status bundle.version.status active
          then (ok bundle, db)
          else attempt (check_activation db tenant_id bundle) db λ _.
            if conflict
            then (raise 409 policy_activation_conflict, db)
            else (let db' : PolicyDb = record db {
              versions =
                  switch_active bundle.policy.id version_id principal.user_id now db.versions;
            } in
                (load_bundle db' tenant_id version_id, db'))

-- The version to clone: the active one, or else the latest.
unfoldable pub clone_source : PolicyDb → Uuid → Uuid → Option PolicyVersion
clone_source db tenant_id policy_id =
    let of_policy =
      λ (row : PolicyVersion). row.tenant_id == tenant_id && row.policy_id == policy_id in
    elim (find (λ row. of_policy row && same_version_status row.status active) db.versions) [
      | some source ↦ some source
      | none ↦
          first_by (λ a b. leb b.version_number a.version_number) (select of_policy db.versions)
    ]

unfoldable pub clone_policy_version :
    PolicyDb → Principal → Uuid → Uuid → (ℕ → Uuid) → Bool → Result PolicyBundle × PolicyDb
unfolding attempt latest_number
clone_policy_version db principal policy_id version_id fresh conflict =
    let tenant_id = principal.tenant_id in
    elim (find (is_policy tenant_id policy_id) db.policies) [
      | none ↦ (raise 404 policy_not_found, db)
      | some policy ↦ elim (clone_source db tenant_id policy.id) [
        | none ↦ (raise 409 policy_has_no_version, db)
        | some source ↦
            let source_rules = select (is_rule_of tenant_id source.id) db.rules in
            attempt (ensure_manage_rule_scopes principal (rule_scopes source_rules)) db λ _.
              if conflict
              then (raise 409 policy_version_conflict, db)
              else (let version : PolicyVersion = record {
                id = version_id;
                tenant_id = tenant_id;
                policy_id = policy.id;
                version_number =
                    latest_number (select (λ row. row.policy_id == policy.id) db.versions) + 1;
                status = draft;
                activated_at = none;
                activated_by_user_id = none;
              } in
                  let db' : PolicyDb = record db {
                    versions = db.versions ++ version ∷ [];
                    rules = db.rules ++ cloned_rules tenant_id version_id fresh 0 source_rules;
                  } in
                  (load_bundle db' tenant_id version_id, db'))
      ]
    ]
