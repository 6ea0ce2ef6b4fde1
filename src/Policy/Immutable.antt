-- ===== src/Policy/Immutable.antt =====
-- What a patch and an activation leave alone: the rules of active versions, and that a policy has
-- one active version at most.
use rfid_inventory_replenish.Prelude.{
  ℕ, suc, ◌≡◌, refl, ap, ◌∙◌, ◌⊎◌, inl, inr, Bool, false, not, ◌&&◌, some, List, [], ◌∷◌, ◌++◌,
  arith, All, All-imp, Keyed, Keyed-find, find, select, select-append, select_of_none,
  select-select, any, any_of_none, ◌==◌, Bool-cases, Option-cases,
}
use mathlib.Core.List.{append-nil}
use rfid_inventory_replenish.Domain.{Uuid, Text, Result-cases, ok}
use rfid_inventory_replenish.Access.{Principal}
use rfid_inventory_replenish.Policy.Rules.{PolicyRule, PolicyRuleWrite}
use rfid_inventory_replenish.Policy.Store.{
  draft, active, same_version_status, PolicyVersion, PolicyDb, is_version, is_active_rule,
  active_rules,
}
use rfid_inventory_replenish.Policy.Lifecycle.{check_rules_patch, new_rules, patch_policy_version}

abbrev kept_rules : PolicyDb → PolicyVersion → List PolicyRule
kept_rules db version = select (λ rule. not (rule.version_id == version.id)) db.rules

new_rules-All :
    {P : PolicyRule → Type 0} {version_id : Uuid}
    → ((rule : PolicyRule) → rule.version_id ≡ version_id → P rule)
    → (tenant_id : Uuid) (fresh : ℕ → Uuid) (n : ℕ) (requests : List PolicyRuleWrite)
    → All P (new_rules tenant_id version_id fresh n requests)
unfolding new_rules
new_rules-All h tenant_id fresh n [] = tt
new_rules-All h tenant_id fresh n (request ∷ requests) =
    (h _ refl, new_rules-All h tenant_id fresh (suc n) requests)

-- A rule of a draft is no rule of an active version.
draft_not_active :
    (versions : List PolicyVersion) (p : PolicyVersion → Bool) (version : PolicyVersion)
    (tenant_id : Uuid)
    → Keyed (λ v. v.id) versions
    → find p versions ≡ some version
    → version.status ≡ draft
    → (rule : PolicyRule) → rule.version_id ≡ version.id
    → is_active_rule versions tenant_id rule ≡ false
draft_not_active versions p version tenant_id keyed found is_draft rule own =
    let live =
      λ (v : PolicyVersion). v.id == rule.version_id && same_version_status v.status active in
    let nothing : any live versions ≡ false = any_of_none live versions (
      All-imp (λ v. v.id ≡ version.id → v ≡ version) (λ v. live v ≡ false)
        (λ v same. elim (Bool-cases (v.id == rule.version_id)) [
          | inl e ↦
              let eq = same (ground arith) in
              ground (arith, ap (λ (w : PolicyVersion). w.status) eq)
          | inr e ↦ ground arith
        ])
        versions (Keyed-find (λ v. v.id) p versions version keyed found)) in
    ground arith

module _ (casefold upper sql_upper : Text → Text) where
  check_rules_patch-draft :
      (db : PolicyDb) (principal : Principal) (version : PolicyVersion)
      (rules : List PolicyRuleWrite)
      → check_rules_patch casefold upper sql_upper db principal version rules ≡ ok tt
      → version.status ≡ draft
  unfolding check_rules_patch
  check_rules_patch-draft db principal version rules h = ground arith

  -- A patch leaves the tables alone, or it has found a draft and replaced its rules.
  patch_policy_version-cases :
      (db : PolicyDb) (principal : Principal) (version_id : Uuid) (rules : List PolicyRuleWrite)
      (fresh : ℕ → Uuid) (conflict : Bool)
      → let outcome =
          patch_policy_version casefold upper sql_upper db principal version_id rules fresh
            conflict in
        (outcome.1 ≡ db)
        ⊎ ((version : PolicyVersion) × (find (is_version principal.tenant_id version_id) db.versions
              ≡ some version)
            × (version.status ≡ draft)
            × (outcome.1 ≡ record db {
              rules =
                  kept_rules db version ++ new_rules principal.tenant_id version.id fresh 0 rules;
            }))
  unfolding patch_policy_version
  patch_policy_version-cases db principal version_id rules fresh conflict =
      elim (Option-cases (find (is_version principal.tenant_id version_id) db.versions)) [
        | inl e ↦ inl (ground arith)
        | inr (version, e) ↦
            elim (Result-cases
              (check_rules_patch casefold upper sql_upper db principal version rules)) [
                | inr (error, refused) ↦ inl (ground arith)
                | inl (_, checked) ↦ elim (Bool-cases conflict) [
                  | inl stop ↦ inl (ground arith)
                  | inr go ↦ inr (
                    version,
                    e,
                    check_rules_patch-draft db principal version rules checked,
                    ground arith,
                  )
                ]
              ]
      ]

  -- If version ids are unique, a patch of a version's rules never changes the rules of the active
  -- versions, of any tenant, whatever the patch returns.
  pub patch_policy_version-active_rules :
      (db : PolicyDb) (principal : Principal) (version_id : Uuid) (rules : List PolicyRuleWrite)
      (fresh : ℕ → Uuid) (conflict : Bool) (tenant_id : Uuid)
      → Keyed (λ version. version.id) db.versions
      → active_rules
          (patch_policy_version casefold upper sql_upper db principal version_id rules fresh
            conflict).1
          tenant_id
        ≡ active_rules db tenant_id
  unfolding active_rules
  patch_policy_version-active_rules db principal version_id rules fresh conflict tenant_id keyed =
      elim (patch_policy_version-cases db principal version_id rules fresh conflict) [
        | inl same ↦ rw same
        | inr (version, found, is_draft, written) ↦
            let live = is_active_rule db.versions tenant_id in
            let own = new_rules principal.tenant_id version.id fresh 0 rules in
            let not_live =
              draft_not_active db.versions (is_version principal.tenant_id version_id) version
                tenant_id keyed found is_draft in
            rw written (
              select-append live (kept_rules db version) own
              ∙ ap (λ l. select live (kept_rules db version) ++ l)
                  (select_of_none live own
                    (new_rules-All not_live principal.tenant_id fresh 0 rules))
              ∙ append-nil _
              ∙ select-select live (λ rule. not (rule.version_id == version.id)) db.rules
                  (λ rule is_live. elim (Bool-cases (rule.version_id == version.id)) [
                    | inl e ↦ absurd (ground (arith, not_live rule))
                    | inr e ↦ rw e
                  ]))
      ]
