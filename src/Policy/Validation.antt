-- ===== src/Policy/Validation.antt =====
-- `_validate_rules` of `src/abacus/services/replenishment.py`. Python's `casefold` and `upper` and
-- the database's `upper` are parameters.
use rfid_inventory_replenish.Prelude.{
  ℕ, ◌≡◌, arith, Bool, true, false, not, ◌&&◌, ◌||◌, Option, none, some, List, [], ◌∷◌, map, find,
  select, any, all, ◌==◌, is_none, is_some, if◌then◌else◌,
}
use rfid_inventory_replenish.Domain.{
  Uuid, Text, Result, ok, raise, ◌>>◌, invalid_policy_scope, policy_rule_overlap,
  invalid_policy_store, invalid_policy_sku, invalid_policy_style, invalid_policy_category,
}
use rfid_inventory_replenish.Policy.Rules.{
  RuleDescriptor, SelectorKind, default, selector_kind, first_overlap,
}
use rfid_inventory_replenish.Policy.Store.{PolicyDb, StoreStatus, inactive, Sku, Product}

-- The set comprehension `{rule.f for rule in rules if rule.f is not None}`.
unfoldable pub values_of : (RuleDescriptor → Option ℕ) → List RuleDescriptor → List ℕ
values_of f [] = []
values_of f (rule ∷ rules) =
    let rest = values_of f rules in elim (f rule) [ none ↦ rest | some value ↦ value ∷ rest ]

abbrev pub contains : List ℕ → ℕ → Bool
contains xs x = any (λ y. x == y) xs

-- Equality of sets, given as lists.
abbrev same_set : List ℕ → List ℕ → Bool
same_set xs ys = all (contains ys) xs && all (contains xs) ys

is_empty : List ℕ → Bool
is_empty [] = true
is_empty (x ∷ xs) = false

is_default : SelectorKind → Bool
is_default default = true
is_default _ = false

is_inactive : StoreStatus → Bool
is_inactive inactive = true
is_inactive _ = false

-- One lookup table check: skipped for no wanted values, else the found set must be the wanted set.
check_set : Bool → Result (Unit {0}) → Result (Unit {0})
check_set fine error = if fine then ok tt else error

module _ (casefold upper sql_upper : Text → Text) (db : PolicyDb) (tenant_id : Uuid) where
  store_ids_fine : List RuleDescriptor → Bool
  unfolding values_of is_empty is_inactive
  store_ids_fine rules =
      let wanted = values_of (λ rule. rule.store_id) rules in
      let rows =
        select
          (λ store.
            store.tenant_id == tenant_id
            && contains wanted store.id
            && not (is_inactive store.status))
          db.stores in
      is_empty wanted || same_set (map (λ store. store.id) rows) wanted

  -- The size of a found SKU and the size that the rule names.
  size_differs : List Sku → RuleDescriptor → Bool
  size_differs rows rule = elim rule.sku_id [
    | none ↦ false
    | some sku_id ↦ elim rule.size [
      | none ↦ false
      | some size ↦ elim (find (λ sku. sku.id == sku_id) rows) [
        | none ↦ false
        | some sku ↦ not (casefold sku.size == casefold size)
      ]
    ]
  ]

  skus_fine : List RuleDescriptor → Bool
  unfolding values_of is_empty size_differs
  skus_fine rules =
      let wanted = values_of (λ rule. rule.sku_id) rules in
      let rows =
        select (λ sku. sku.tenant_id == tenant_id && contains wanted sku.id && sku.active)
          db.skus in
      is_empty wanted
      || (same_set (map (λ sku. sku.id) rows) wanted && not (any (size_differs rows) rules))

  -- `column` is the style code, or the category.
  labels_fine : (RuleDescriptor → Option Text) → (Product → Text) → List RuleDescriptor → Bool
  unfolding values_of is_empty
  labels_fine field column rules =
      let wanted = values_of field rules in
      let rows =
        select
          (λ product.
            product.tenant_id == tenant_id
            && contains wanted (sql_upper (column product))
            && product.active)
          db.products in
      is_empty wanted || same_set (map (λ product. upper (column product)) rows) wanted

  unfoldable pub validate_rules : List RuleDescriptor → Result (Unit {0})
  unfolding is_default check_set store_ids_fine skus_fine labels_fine
  validate_rules rules = do
    check_set (not (any (λ rule. is_some rule.store_id && is_default (selector_kind rule)) rules))
        (raise 422 invalid_policy_scope)
    check_set (is_none (first_overlap casefold rules)) (raise 422 policy_rule_overlap)
    check_set (store_ids_fine rules) (raise 422 invalid_policy_store)
    check_set (skus_fine rules) (raise 422 invalid_policy_sku)
    check_set (labels_fine (λ rule. rule.style_code) (λ product. product.style_code) rules)
        (raise 422 invalid_policy_style)
    check_set (labels_fine (λ rule. rule.category) (λ product. product.category) rules)
        (raise 422 invalid_policy_category)

  -- Rules that pass have no overlap among them.
  pub validate_rules-first_overlap :
      (rules : List RuleDescriptor)
      → validate_rules rules ≡ ok tt
      → first_overlap casefold rules ≡ none
  unfolding validate_rules
  validate_rules-first_overlap rules h = ground arith
