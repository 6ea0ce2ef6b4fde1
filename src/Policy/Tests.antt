-- ===== src/Policy/Tests.antt =====
-- Runs of the policy operations, and the theorems at concrete inputs. `casefold` and `upper` are
-- taken as the identity.
use rfid_inventory_replenish.Prelude.{
  ℕ, ◌+◌, ◌≤◌, ◌≡◌, ◌≢◌, ◌↔◌, refl, true, false, none, some, List, [], ◌∷◌, arith, All, Apart,
  Keyed, find, pos, select, count_where, any, all, sort_by, insert_by, update_where,
}
use rfid_inventory_replenish.Domain.{Uuid, Text}
use rfid_inventory_replenish.Access.{
  has_permission, can_access_store, has_tenant_permission, store_ids_for_permission, permits,
}
use rfid_inventory_replenish.Access.Tests.{admin}
use rfid_inventory_replenish.Policy.Rules.{
  PolicyRule, PolicyRuleWrite, RuleDescriptor, SkuContext, chosen, no_rule, ambiguous, ranks_before,
  choose, candidates, rule_precedence, rules_overlap, first_overlap, select_policy_rule, descriptor,
  descriptor_of_write,
}
use rfid_inventory_replenish.Policy.Overlap.{first_overlap-Apart, select_policy_rule-ne-ambiguous}
use rfid_inventory_replenish.Policy.Selection.{
  precedence, IsBest, select_policy_rule-chosen, select_policy_rule-no_rule,
}
use rfid_inventory_replenish.Policy.Store.{
  draft, active, retired, PolicyVersion, PolicyDb, active_rules, ensure_manage_rule_scopes,
  load_bundle, StoreStatus,
}
use rfid_inventory_replenish.Policy.Validation.{validate_rules}
use rfid_inventory_replenish.Policy.Lifecycle.{
  patch_policy_version, activate_policy_version, new_rules, check_rules_patch, check_activation,
  other_active_rules, overlaps_active, switch_active,
}
use rfid_inventory_replenish.Policy.Activation.{overlap, activate_policy_version-Apart}
use rfid_inventory_replenish.Policy.Immutable.{patch_policy_version-active_rules}
use rfid_inventory_replenish.Policy.OneActive.{active_count, activate_policy_version-one_active}

program : Unit {0}
unfolding ranks_before choose candidates rule_precedence rules_overlap first_overlap
    select_policy_rule descriptor find select any all sort_by insert_by update_where
program = tt

abbrev pub same : Text → Text
same text = text

-- A default for the tenant, and a rule for SKU 20 at store 7.
abbrev pub default_rule : PolicyRule
default_rule = record {
  id = 100;
  tenant_id = 5;
  version_id = 30;
  store_id = none;
  category = none;
  style_code = none;
  sku_id = none;
  size = none;
  min_floor_qty = 2;
  target_floor_qty = 6;
  priority = pos 0;
}

abbrev pub store_rule : PolicyRule
store_rule = record default_rule { id = 101; store_id = some 7; sku_id = some 20 }

abbrev draft_rule : PolicyRule
draft_rule = record default_rule { id = 102; version_id = 31; category = some 9 }

abbrev rules : List RuleDescriptor
rules = descriptor default_rule ∷ descriptor store_rule ∷ []

abbrev pub item : SkuContext
item = record { sku_id = 20; style_code = 8; category = 9; size = 3 }

chosen_run : select_policy_rule same rules 7 item ≡ chosen (descriptor store_rule)
unfolding program
chosen_run = refl

no_rule_run : select_policy_rule same (descriptor store_rule ∷ []) 8 item ≡ no_rule
unfolding program
no_rule_run = refl

clear_run : first_overlap same rules ≡ none
unfolding program
clear_run = refl

-- Two rules that tie leave the choice ambiguous.
ambiguous_run : select_policy_rule same (descriptor default_rule ∷ rules) 8 item ≡ ambiguous
unfolding program
ambiguous_run = refl

select_policy_rule-chosen_example : (p : ℕ) × (IsBest same 7 item rules p (descriptor store_rule))
select_policy_rule-chosen_example = select_policy_rule-chosen same 7 item rules chosen_run

select_policy_rule-no_rule_example :
    All (λ rule. precedence same 8 item rule ≡ none) (descriptor store_rule ∷ [])
select_policy_rule-no_rule_example =
    select_policy_rule-no_rule same 8 item (descriptor store_rule ∷ []) no_rule_run

first_overlap-Apart_example : first_overlap same rules ≡ none ↔ Apart (rules_overlap same) rules
first_overlap-Apart_example = first_overlap-Apart same rules

select_policy_rule-ne-ambiguous_example : select_policy_rule same rules 7 item ≢ ambiguous
select_policy_rule-ne-ambiguous_example =
    select_policy_rule-ne-ambiguous same rules 7 item clear_run

abbrev active_version : PolicyVersion
active_version = record {
  id = 30;
  tenant_id = 5;
  policy_id = 40;
  version_number = 1;
  status = active;
  activated_at = some 50;
  activated_by_user_id = some 3;
}

abbrev draft_version : PolicyVersion
draft_version = record active_version {
  id = 31;
  version_number = 2;
  status = draft;
  activated_at = none;
  activated_by_user_id = none;
}

abbrev pub db : PolicyDb
db = record {
  policies = record { id = 40; tenant_id = 5; name = 1; description = none; updated_at = 10 } ∷ [];
  versions = active_version ∷ draft_version ∷ [];
  rules = default_rule ∷ store_rule ∷ draft_rule ∷ [];
  stores = record { id = 7; tenant_id = 5; status = StoreStatus.active } ∷ [];
  skus = [];
  variants = [];
  products = record { id = 60; tenant_id = 5; style_code = 8; category = 9; active = true } ∷ [];
}

lifecycle : Unit {0}
unfolding program has_permission can_access_store has_tenant_permission store_ids_for_permission
    permits ensure_manage_rule_scopes load_bundle validate_rules patch_policy_version
    activate_policy_version new_rules descriptor_of_write check_rules_patch check_activation
    other_active_rules overlaps_active switch_active active_rules
lifecycle = tt

-- The draft is activated, and the version that was active is retired.
activation_run :
    (activate_policy_version same same same db admin 31 70 false).1.versions
    ≡ record active_version { status = retired }
      ∷ record draft_version {
        status = active;
        activated_at = some 70;
        activated_by_user_id = some 3;
      }
      ∷ []
unfolding lifecycle
activation_run = refl

active-Apart : Apart (overlap same same same) (active_rules db 5)
unfolding lifecycle
active-Apart = ((refl, tt), (tt, tt))

activate_policy_version-Apart_example :
    Apart
      (overlap same same same)
      (active_rules (activate_policy_version same same same db admin 31 70 false).1 5)
activate_policy_version-Apart_example =
    activate_policy_version-Apart same same same db admin 31 70 false active-Apart

versions-Keyed : Keyed (λ (v : PolicyVersion). v.id) db.versions
versions-Keyed = ((refl, tt), (tt, tt))

abbrev write : PolicyRuleWrite
write = record {
  store_id = none;
  category = some 9;
  style_code = none;
  sku_id = none;
  size = none;
  min_floor_qty = 1;
  target_floor_qty = 3;
  priority = pos 2;
}

-- The draft gets the requested rule in place of its own.
patch_run :
    (patch_policy_version same same same db admin 31 (write ∷ []) (λ n. n + 200) false).1.rules
    ≡ default_rule
      ∷ store_rule
      ∷ record draft_rule { id = 200; min_floor_qty = 1; target_floor_qty = 3; priority = pos 2 }
      ∷ []
unfolding lifecycle
patch_run = refl

patch_policy_version-active_rules_example :
    active_rules
      (patch_policy_version same same same db admin 31 (write ∷ []) (λ n. n + 200) false).1
      5
    ≡ active_rules db 5
patch_policy_version-active_rules_example =
    patch_policy_version-active_rules same same same db admin 31 (write ∷ []) (λ n. n + 200) false 5
      versions-Keyed

one_active : (policy_id : Uuid) → active_count policy_id db.versions ≤ 1
unfolding count_where
one_active policy_id = ground arith

activate_policy_version-one_active_example :
    active_count 40 (activate_policy_version same same same db admin 31 70 false).1.versions ≤ 1
activate_policy_version-one_active_example =
    activate_policy_version-one_active same same same db admin 31 70 false versions-Keyed one_active
      40
