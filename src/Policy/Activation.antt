-- ===== src/Policy/Activation.antt =====
-- Activation keeps the active rules of a tenant free of overlaps.
use rfid_inventory_replenish.Prelude.{
  ◌≡◌, ap, subst, ◌⊎◌, inl, inr, Bool, true, false, not, ◌&&◌, ◌||◌, some, List, [], ◌∷◌, map,
  arith, All, All-imp, Apart, ApartWhere, ApartWhere-of_Apart, Apart-of_ApartWhere,
  Apart-of_sort_by, ApartWhere-imp, any-imp, ApartWhere-union, Apart-map, All-where, All-of_sort_by,
  find, find-some, select, any, any-All, update_where, sort_by, ◌==◌, Bool-cases, Option-cases,
}
use rfid_inventory_replenish.Domain.{Uuid, Text, Instant, Result-cases, ok}
use rfid_inventory_replenish.Access.{Principal}
use rfid_inventory_replenish.Policy.Rules.{PolicyRule, descriptor, rules_overlap}
use rfid_inventory_replenish.Policy.Overlap.{rules_overlap_comm, first_overlap-Apart}
use rfid_inventory_replenish.Policy.Store.{
  active, same_version_status, PolicyVersion, PolicyDb, PolicyBundle, ensure_manage_rule_scopes,
  rule_scopes, rule_order, is_version, is_policy, is_rule_of, load_bundle, is_active_rule,
  active_rules,
}
use rfid_inventory_replenish.Policy.Validation.{validate_rules-first_overlap}
use rfid_inventory_replenish.Policy.Lifecycle.{
  other_active_rules, overlaps_active, check_activation, switch_active, activate_policy_version,
}

-- After the switch a rule is active as a rule of the new active version, or as a rule of an active
-- version of another policy.
switch_active_cases :
    (policy_id version_id user_id : Uuid) (now : Instant) (rule_version : Uuid)
    (versions : List PolicyVersion)
    → any
        (λ v. v.id == rule_version && same_version_status v.status active)
        (switch_active policy_id version_id user_id now versions)
      ≡ true
    → ((rule_version == version_id) ≡ true)
      ⊎ (any
            (λ v.
              v.id == rule_version
              && same_version_status v.status active
              && not (v.policy_id == policy_id))
            versions
          ≡ true)
unfolding switch_active any update_where
switch_active_cases policy_id version_id user_id now rule_version [] h = ground arith
switch_active_cases policy_id version_id user_id now rule_version (v ∷ versions) h =
    ground (arith, switch_active_cases policy_id version_id user_id now rule_version versions)

-- What a loaded bundle holds.
pub load_bundle_ok :
    (db : PolicyDb) (tenant_id version_id : Uuid) {bundle : PolicyBundle}
    → load_bundle db tenant_id version_id ≡ ok bundle
    → (find (is_version tenant_id version_id) db.versions ≡ some bundle.version)
      × (bundle.version.id ≡ version_id)
      × (find (is_policy tenant_id bundle.version.policy_id) db.policies ≡ some bundle.policy)
      × (bundle.rules ≡ sort_by rule_order (select (is_rule_of tenant_id version_id) db.rules))
unfolding load_bundle
load_bundle_ok db tenant_id version_id {bundle} h =
    elim (Option-cases (find (is_version tenant_id version_id) db.versions)) [
      | inl e ↦ absurd (ground arith)
      | inr (version, e) ↦
          let same : version.id ≡ version_id =
            ground (arith, find-some (is_version tenant_id version_id) db.versions version e) in
          elim (Option-cases (find (is_policy tenant_id version.policy_id) db.policies)) [
            | inl f ↦ absurd (ground arith)
            | inr (policy, f) ↦
                let rules_of =
                  λ (id : Uuid). sort_by rule_order (select (is_rule_of tenant_id id) db.rules) in
                let built : PolicyBundle = record {
                  policy = policy;
                  version = version;
                  rules = rules_of version.id;
                } in
                let returned : built ≡ bundle = ground arith in
                subst
                  (λ (b : PolicyBundle).
                    (find (is_version tenant_id version_id) db.versions ≡ some b.version)
                    × (b.version.id ≡ version_id)
                    × (find (is_policy tenant_id b.version.policy_id) db.policies ≡ some b.policy)
                    × (b.rules ≡ rules_of version_id))
                  returned (e, same, f, ap rules_of same)
          ]
    ]

module _ (casefold upper sql_upper : Text → Text) where
  abbrev pub overlap : PolicyRule → PolicyRule → Bool
  overlap a b = rules_overlap casefold (descriptor a) (descriptor b)

  overlap_comm : (a b : PolicyRule) → overlap a b ≡ overlap b a
  overlap_comm a b = rules_overlap_comm casefold (descriptor a) (descriptor b)

  abbrev is_other_active : PolicyDb → Uuid → Uuid → PolicyRule → Bool
  is_other_active db tenant_id policy_id rule =
      rule.tenant_id == tenant_id
      && any
          (λ version.
            version.id == rule.version_id
            && same_version_status version.status active
            && not (version.policy_id == policy_id))
          db.versions

  is_other-is_active :
      (db : PolicyDb) (tenant_id policy_id : Uuid) (rule : PolicyRule)
      → is_other_active db tenant_id policy_id rule ≡ true
      → is_active_rule db.versions tenant_id rule ≡ true
  is_other-is_active db tenant_id policy_id rule h =
      let other = λ (v : PolicyVersion).
        v.id == rule.version_id
        && same_version_status v.status active
        && not (v.policy_id == policy_id) in
      let live =
        λ (v : PolicyVersion). v.id == rule.version_id && same_version_status v.status active in
      let found : any live db.versions ≡ true =
        any-imp other live (λ v k. ground arith) db.versions (ground arith) in
      ground arith

  -- What an activation has checked about the rules of the draft.
  checked_apart :
      (db : PolicyDb) (tenant_id version_id : Uuid) (bundle : PolicyBundle)
      → load_bundle db tenant_id version_id ≡ ok bundle
      → check_activation casefold upper sql_upper db tenant_id bundle ≡ ok tt
      → ApartWhere overlap (is_rule_of tenant_id version_id) db.rules
  unfolding load_bundle check_activation
  checked_apart db tenant_id version_id bundle loaded checked =
      let (found, same, policy, rules) = load_bundle_ok db tenant_id version_id loaded in
      let clear =
        validate_rules-first_overlap casefold upper sql_upper db tenant_id
          (map descriptor bundle.rules) (ground arith) in
      let apart = (first_overlap-Apart casefold (map descriptor bundle.rules)).0 clear in
      ApartWhere-of_Apart overlap (is_rule_of tenant_id version_id) db.rules (
        Apart-of_sort_by overlap overlap_comm rule_order _ (
          subst (Apart overlap) rules
            ((Apart-map descriptor (rules_overlap casefold) bundle.rules).1 apart)))

  checked_cross :
      (db : PolicyDb) (tenant_id version_id : Uuid) (bundle : PolicyBundle)
      → load_bundle db tenant_id version_id ≡ ok bundle
      → check_activation casefold upper sql_upper db tenant_id bundle ≡ ok tt
      → All
          (λ a.
            is_rule_of tenant_id version_id a ≡ true
            → All
                (λ b. is_other_active db tenant_id bundle.policy.id b ≡ true → overlap a b ≡ false)
                db.rules)
          db.rules
  unfolding load_bundle check_activation overlaps_active other_active_rules
  checked_cross db tenant_id version_id bundle loaded checked =
      let (found, same, policy, rules) = load_bundle_ok db tenant_id version_id loaded in
      let others = other_active_rules db tenant_id bundle.policy.id in
      let none_overlap : overlaps_active casefold upper sql_upper bundle.rules others ≡ false =
        ground arith in
      let clear =
        All-imp (λ a. any (overlap a) others ≡ false)
          (λ a.
            All (λ b. is_other_active db tenant_id bundle.policy.id b ≡ true → overlap a b ≡ false)
              db.rules)
          (λ a h.
            All-where (λ b. overlap a b ≡ false) (is_other_active db tenant_id bundle.policy.id)
              db.rules (any-All (overlap a) others h))
          bundle.rules (any-All (λ a. any (overlap a) others) bundle.rules none_overlap) in
      let Clear = λ (a : PolicyRule).
        All (λ b. is_other_active db tenant_id bundle.policy.id b ≡ true → overlap a b ≡ false)
          db.rules in
      All-where Clear (is_rule_of tenant_id version_id) db.rules
        (All-of_sort_by rule_order Clear _ (subst (All Clear) rules clear))

  -- The tables that an activation of the bundle's version writes.
  abbrev pub activated : PolicyDb → Uuid → Instant → PolicyBundle → Uuid → PolicyDb
  activated db user_id now bundle version_id = record db {
    versions = switch_active bundle.policy.id version_id user_id now db.versions;
  }

  -- An activation leaves the tables alone, or it has loaded and checked a draft and switched to it.
  pub activate_policy_version-cases :
      (db : PolicyDb) (principal : Principal) (version_id : Uuid) (now : Instant) (conflict : Bool)
      → let outcome =
          activate_policy_version casefold upper sql_upper db principal version_id now conflict in
        (outcome.1 ≡ db)
        ⊎ ((bundle : PolicyBundle) × (load_bundle db principal.tenant_id version_id ≡ ok bundle)
            × (ensure_manage_rule_scopes principal (rule_scopes bundle.rules) ≡ ok tt)
            × (check_activation casefold upper sql_upper db principal.tenant_id bundle ≡ ok tt)
            × (outcome.1 ≡ activated db principal.user_id now bundle version_id))
  unfolding activate_policy_version
  activate_policy_version-cases db principal version_id now conflict =
      elim (Result-cases (load_bundle db principal.tenant_id version_id)) [
        | inr (e, loaded) ↦ inl (ground arith)
        | inl (bundle, loaded) ↦
            elim (Result-cases (ensure_manage_rule_scopes principal (rule_scopes bundle.rules))) [
              | inr (e, denied) ↦ inl (ground arith)
              | inl (_, allowed) ↦
                  elim (Result-cases
                    (check_activation casefold upper sql_upper db principal.tenant_id bundle)) [
                      | inr (e, refused) ↦ inl (ground arith)
                      | inl (_, checked) ↦
                          elim (Bool-cases
                            (conflict || same_version_status bundle.version.status active)) [
                              | inl stop ↦ inl (ground arith)
                              | inr go ↦ inr (bundle, loaded, allowed, checked, ground arith)
                            ]
                    ]
            ]
      ]

  -- An activation keeps the active rules of its tenant free of overlaps: if no two of them overlap
  -- before, no two of them overlap after, whatever the activation returns.
  pub activate_policy_version-Apart :
      (db : PolicyDb) (principal : Principal) (version_id : Uuid) (now : Instant) (conflict : Bool)
      → Apart overlap (active_rules db principal.tenant_id)
      → Apart overlap (
          active_rules
            (activate_policy_version casefold upper sql_upper db principal version_id now
              conflict).1
            principal.tenant_id)
  unfolding active_rules
  activate_policy_version-Apart db principal version_id now conflict h =
      elim (activate_policy_version-cases db principal version_id now conflict) [
        | inl same ↦ rw same h
        | inr (bundle, loaded, allowed, checked, written) ↦
            let tenant_id = principal.tenant_id in
            let db' = activated db principal.user_id now bundle version_id in
            let others = is_other_active db tenant_id bundle.policy.id in
            let before =
              ApartWhere-of_Apart overlap (is_active_rule db.versions tenant_id) db.rules h in
            rw written (
              Apart-of_ApartWhere overlap (is_active_rule db'.versions tenant_id) db.rules (
                ApartWhere-union overlap overlap_comm (is_rule_of tenant_id version_id) others
                  (is_active_rule db'.versions tenant_id)
                  (λ rule now_active.
                    elim (switch_active_cases bundle.policy.id version_id principal.user_id now
                      rule.version_id db.versions (ground arith)) [
                        | inl own ↦ inl (ground arith)
                        | inr other ↦ inr (ground arith)
                      ])
                  db.rules (checked_apart db tenant_id version_id bundle loaded checked)
                  (ApartWhere-imp overlap (is_active_rule db.versions tenant_id) others
                    (λ rule other. is_other-is_active db tenant_id bundle.policy.id rule other)
                    db.rules before)
                  (checked_cross db tenant_id version_id bundle loaded checked)))
      ]
