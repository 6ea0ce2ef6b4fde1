-- ===== src/Policy/OneActive.antt =====
-- An activation leaves every policy with one active version at most.
use rfid_inventory_replenish.Prelude.{
  ℕ, ◌≤◌, ◌≡◌, ap, subst, find-some, inl, inr, Bool, false, ◌&&◌, List, [], ◌∷◌, arith, All,
  All-imp, Keyed, Keyed-find, Keyed-count, count_where, update_where, ◌==◌, Bool-cases,
}
use rfid_inventory_replenish.Domain.{Uuid, Text, Instant}
use rfid_inventory_replenish.Access.{Principal}
use rfid_inventory_replenish.Policy.Store.{
  active, same_version_status, PolicyVersion, PolicyDb, is_version, is_policy,
}
use rfid_inventory_replenish.Policy.Lifecycle.{switch_active, activate_policy_version}
use rfid_inventory_replenish.Policy.Activation.{activate_policy_version-cases, load_bundle_ok}

-- The active versions of a policy.
abbrev pub active_count : Uuid → List PolicyVersion → ℕ
active_count policy_id =
    count_where (λ v. v.policy_id == policy_id && same_version_status v.status active)

module _ (policy_id version_id user_id : Uuid) (now : Instant) where
  own_policy :
      (versions : List PolicyVersion)
      → active_count policy_id (switch_active policy_id version_id user_id now versions)
        ≤ count_where (λ v. v.id == version_id) versions
  unfolding switch_active update_where count_where
  own_policy [] = omega arith
  own_policy (v ∷ versions) = ground (arith, own_policy versions)

  other_policy :
      (other : Uuid) (versions : List PolicyVersion)
      → (other == policy_id) ≡ false
      → All (λ v. v.id ≡ version_id → v.policy_id ≡ policy_id) versions
      → active_count other (switch_active policy_id version_id user_id now versions)
        ≤ active_count other versions
  unfolding switch_active update_where count_where
  other_policy other [] differs own = omega arith
  other_policy other (v ∷ versions) differs own =
      ground (arith, own.0, other_policy other versions differs own.1)

-- Where version ids are unique and each policy has one active version at most, this is so after an
-- activation, whatever it returns.
pub activate_policy_version-one_active :
    (casefold upper sql_upper : Text → Text) (db : PolicyDb) (principal : Principal)
    (version_id : Uuid) (now : Instant) (conflict : Bool)
    → Keyed (λ v. v.id) db.versions
    → ((policy_id : Uuid) → active_count policy_id db.versions ≤ 1)
    → (policy_id : Uuid)
    → active_count policy_id
        (activate_policy_version casefold upper sql_upper db principal version_id now
          conflict).1.versions
      ≤ 1
activate_policy_version-one_active casefold upper sql_upper db principal version_id now conflict
      keyed one policy_id =
    elim (activate_policy_version-cases casefold upper sql_upper db principal version_id now
      conflict) [
        | inl same ↦ rw same (one policy_id)
        | inr (bundle, loaded, allowed, checked, written) ↦
            let (found, id, policy, rules) =
              load_bundle_ok db principal.tenant_id version_id loaded in
            let versions = db.versions in
            let user_id = principal.user_id in
            let after = switch_active bundle.policy.id version_id user_id now versions in
            let parent : bundle.policy.id ≡ bundle.version.policy_id = ground (
              arith,
              find-some (is_policy principal.tenant_id bundle.version.policy_id) db.policies
                  bundle.policy policy,
            ) in
            rw written (elim (Bool-cases (policy_id == bundle.policy.id)) [
              | inl same ↦
                  let eq : bundle.policy.id ≡ policy_id = ground arith in
                  subst (λ (p : Uuid). active_count p after ≤ 1) eq
                    (omega (
                      arith,
                      own_policy bundle.policy.id version_id user_id now versions,
                      Keyed-count (λ v. v.id) version_id versions keyed,
                    ))
              | inr differs ↦ omega (
                arith,
                one policy_id,
                other_policy bundle.policy.id version_id user_id now policy_id versions differs (
                    All-imp (λ v. v.id ≡ bundle.version.id → v ≡ bundle.version)
                      (λ v. v.id ≡ version_id → v.policy_id ≡ bundle.policy.id)
                      (λ v same k.
                        let eq = same (ground arith) in
                        ground (arith, ap (λ (w : PolicyVersion). w.policy_id) eq))
                      versions
                      (Keyed-find (λ v. v.id) (is_version principal.tenant_id version_id) versions
                        bundle.version keyed found)),
              )
            ])
      ]
