-- ===== src/Policy/Rules.antt =====
-- Policy rules and the choice of the rule for one SKU at one store (`RuleDescriptor`,
-- `SkuContext`, `_descriptor`, `_selector_kind`, `rule_precedence`, `select_policy_rule`,
-- `rules_overlap`, `_first_overlap`, `calculate_replenishment_quantity`; the columns of
-- `PolicyRule` and the fields of `PolicyRuleWrite`). Python's `str.casefold` is a parameter.
use rfid_inventory_replenish.Prelude.{
  ℕ, ◌-◌, ltb, min, Bool, true, false, not, ◌&&◌, ◌||◌, Option, none, some, List, [], ◌∷◌, find,
  sort_by, ℤ, ltb_ℤ, eq_ℤ, ◌==◌, ◌==?◌, is_none, is_some, if◌then◌else◌,
}
use rfid_inventory_replenish.Domain.{Uuid, Text}

pub record PolicyRule : Type 0 where
  pub id : Uuid
  pub tenant_id : Uuid
  pub version_id : Uuid
  pub store_id : Option Uuid
  pub category : Option Text
  pub style_code : Option Text
  pub sku_id : Option Uuid
  pub size : Option Text
  pub min_floor_qty : ℕ
  pub target_floor_qty : ℕ
  pub priority : ℤ

pub record PolicyRuleWrite : Type 0 where
  pub store_id : Option Uuid
  pub category : Option Text
  pub style_code : Option Text
  pub sku_id : Option Uuid
  pub size : Option Text
  pub min_floor_qty : ℕ
  pub target_floor_qty : ℕ
  pub priority : ℤ

pub record RuleDescriptor : Type 0 where
  pub id : Option Uuid
  pub version_id : Option Uuid
  pub store_id : Option Uuid
  pub category : Option Text
  pub style_code : Option Text
  pub sku_id : Option Uuid
  pub size : Option Text
  pub min_floor_qty : ℕ
  pub target_floor_qty : ℕ
  pub priority : ℤ

pub record SkuContext : Type 0 where
  pub sku_id : Uuid
  pub style_code : Text
  pub category : Text
  pub size : Text

-- `_descriptor` of a stored rule, and of a rule in a request, which has neither id.
unfoldable pub descriptor : PolicyRule → RuleDescriptor
descriptor rule = record {
  id = some rule.id;
  version_id = some rule.version_id;
  store_id = rule.store_id;
  category = rule.category;
  style_code = rule.style_code;
  sku_id = rule.sku_id;
  size = rule.size;
  min_floor_qty = rule.min_floor_qty;
  target_floor_qty = rule.target_floor_qty;
  priority = rule.priority;
}

unfoldable pub descriptor_of_write : PolicyRuleWrite → RuleDescriptor
descriptor_of_write rule = record {
  id = none;
  version_id = none;
  store_id = rule.store_id;
  category = rule.category;
  style_code = rule.style_code;
  sku_id = rule.sku_id;
  size = rule.size;
  min_floor_qty = rule.min_floor_qty;
  target_floor_qty = rule.target_floor_qty;
  priority = rule.priority;
}

-- Quantities are never negative, so the truncated difference is `max(0, …)`.
unfoldable pub calculate_replenishment_quantity : ℕ → ℕ → ℕ → ℕ → ℕ → ℕ
calculate_replenishment_quantity floor_qty backroom_qty open_task_qty min_floor_qty
      target_floor_qty =
    if not (ltb floor_qty min_floor_qty)
    then 0
    else min backroom_qty (target_floor_qty - floor_qty - open_task_qty)

pub data SelectorKind : Type 0 where
  sku style category default : SelectorKind

unfoldable pub selector_kind : RuleDescriptor → SelectorKind
selector_kind rule =
    if is_some rule.sku_id
    then sku
    else if is_some rule.style_code
    then style
    else if is_some rule.category
    then SelectorKind.category
    else default

-- A member of `candidates`, the triple of a matching rule.
pub record Candidate : Type 0 where
  pub precedence : ℕ
  pub priority : ℤ
  pub rule : RuleDescriptor

-- What `select_policy_rule` returns; `ambiguous` is the ValueError.
pub data Selection : Type 0 where
  chosen : RuleDescriptor → Selection
  no_rule ambiguous : Selection

-- The order of `sort(key=(precedence, priority), reverse=True)`.
unfoldable pub ranks_before : Candidate → Candidate → Bool
ranks_before a b =
    ltb b.precedence a.precedence
    || (a.precedence == b.precedence && not (ltb_ℤ a.priority b.priority))

abbrev pub same_rank : Candidate → Candidate → Bool
same_rank a b = a.precedence == b.precedence && eq_ℤ a.priority b.priority

-- `candidates[0]`, unless `candidates[1]` has the same rank.
unfoldable pub choose : List Candidate → Selection
choose [] = no_rule
choose (best ∷ []) = chosen best.rule
choose (best ∷ second ∷ rest) = if same_rank second best then ambiguous else chosen best.rule

abbrev same_kind : SelectorKind → SelectorKind → Bool
same_kind sku sku = true
same_kind style style = true
same_kind category category = true
same_kind default default = true
same_kind _ _ = false

module _ (casefold : Text → Text) where
  -- value is None or value.casefold() != other.casefold(), negated
  abbrev folds_to : Option Text → Text → Bool
  folds_to none other = false
  folds_to (some value) other = casefold value == casefold other

  unfoldable pub rule_precedence : RuleDescriptor → Uuid → SkuContext → Option ℕ
  unfolding selector_kind
  rule_precedence rule store_id item =
      if is_some rule.store_id && not (rule.store_id ==? some store_id)
      then none
      else (let tenant_scope = is_none rule.store_id in
          elim (selector_kind rule) [
            | sku ↦
                if not (rule.sku_id ==? some item.sku_id)
                then none
                else if is_some rule.size && not (folds_to rule.size item.size)
                then none
                else if tenant_scope
                then some 4
                else some 7
            | style ↦
                if not (folds_to rule.style_code item.style_code)
                then none
                else if tenant_scope
                then some 3
                else some 6
            | category ↦
                if not (folds_to rule.category item.category)
                then none
                else if tenant_scope
                then some 2
                else some 5
            | default ↦ if tenant_scope then some 1 else none
          ])

  -- The `assert`s hold, since the kind says which selector is set.
  abbrev both_fold : Option Text → Option Text → Bool
  both_fold (some left) right = folds_to right left
  both_fold none right = false

  unfoldable pub rules_overlap : RuleDescriptor → RuleDescriptor → Bool
  unfolding selector_kind
  rules_overlap left right =
      if not (eq_ℤ left.priority right.priority) || not (left.store_id ==? right.store_id)
      then false
      else if not (same_kind (selector_kind left) (selector_kind right))
      then false
      else elim (selector_kind left) [
        | default ↦ true
        | category ↦ both_fold left.category right.category
        | style ↦ both_fold left.style_code right.style_code
        | sku ↦
            if not (left.sku_id ==? right.sku_id)
            then false
            else is_none left.size || is_none right.size || both_fold left.size right.size
      ]

  -- The two nested loops of `_first_overlap`.
  unfoldable pub first_overlap : List RuleDescriptor → Option (RuleDescriptor × RuleDescriptor)
  first_overlap [] = none
  first_overlap (left ∷ rest) =
      let later = first_overlap rest in
      elim (find (rules_overlap left) rest) [ none ↦ later | some right ↦ some (left, right) ]

  -- The comprehension over the rules.
  unfoldable pub candidates : Uuid → SkuContext → List RuleDescriptor → List Candidate
  candidates store_id item [] = []
  candidates store_id item (rule ∷ rules) =
      let rest = candidates store_id item rules in
      elim (rule_precedence rule store_id item) [
        | none ↦ rest
        | some precedence ↦
            record { precedence = precedence; priority = rule.priority; rule = rule } ∷ rest
      ]

  unfoldable pub select_policy_rule : List RuleDescriptor → Uuid → SkuContext → Selection
  select_policy_rule rules store_id item =
      choose (sort_by ranks_before (candidates store_id item rules))
