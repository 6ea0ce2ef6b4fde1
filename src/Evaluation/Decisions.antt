-- ===== src/Evaluation/Decisions.antt =====
-- What an evaluation decides and what it leaves of the tasks.
use rfid_inventory_replenish.Prelude.{
  ℕ, ◌+◌, ◌≤◌, ◌≡◌, ◌≢◌, refl, ◌⊎◌, inl, inr, Bool, false, ◌||◌, is_none, Option, none, some, List,
  map, arith, find, Option-cases, Bool-cases, ◌==◌,
}
use rfid_inventory_replenish.Domain.{Uuid, Text, ok}
use rfid_inventory_replenish.Policy.Rules.{
  PolicyRule, RuleDescriptor, descriptor, Selection, chosen, no_rule, ambiguous, select_policy_rule,
  calculate_replenishment_quantity,
}
use rfid_inventory_replenish.Policy.Selection.{IsBest, select_policy_rule-chosen}
use rfid_inventory_replenish.Tasks.{TaskStatus, open_, ReplenishmentTask}
use rfid_inventory_replenish.Evaluation.Snapshots.{InventorySnapshot}
use rfid_inventory_replenish.Evaluation.Decide.{
  Decision, nothing, enlarge, defer, create, decide, decide_by, shortage, act, task_of, is_open,
  open_quantity,
}

-- How much a decision asks for, beyond the tasks that there are.
abbrev pub asked : Decision → ℕ
asked (enlarge task rule amount) = amount
asked (defer amount) = amount
asked (create sku rule amount) = amount
asked _ = 0

-- The task that a decision changes is open.
abbrev pub ChangesOpen : Decision → Type 0
ChangesOpen (enlarge task rule amount) = task.status ≡ open_
ChangesOpen _ = Unit

pub open-cases : (s : TaskStatus) → (s ≡ open_) ⊎ (is_open s ≡ false)
open-cases s = ground arith

pub Selection-cases :
    (s : Selection) → (s ≡ no_rule) ⊎ ((s ≡ ambiguous) ⊎ ((r : RuleDescriptor) × (s ≡ chosen r)))
Selection-cases no_rule = inl refl
Selection-cases ambiguous = inr (inl refl)
Selection-cases (chosen r) = inr (inr (r, refl))

act_lem :
    (sku : Uuid) (rule : PolicyRule) (q : ℕ) (task : Option ReplenishmentTask)
    → ChangesOpen (act sku rule q task) × (asked (act sku rule q task) ≡ q)
unfolding act
act_lem sku rule q none = (tt, refl)
act_lem sku rule q (some task) = elim (open-cases task.status) [
  | inl e ↦ rw e (refl, refl)
  | inr e ↦ rw e (tt, refl)
]

module _ {F : Type 0} (snapshot : InventorySnapshot F) (rules : List PolicyRule)
    (active : List ReplenishmentTask) where
  shortage_bounds :
      (rule : RuleDescriptor) (task : Option ReplenishmentTask)
      → shortage snapshot rule task ≢ 0
      → (shortage snapshot rule task ≤ snapshot.backroom_qty)
        × (snapshot.floor_qty + open_quantity task + shortage snapshot rule task
            ≤ rule.target_floor_qty)
  unfolding shortage calculate_replenishment_quantity
  shortage_bounds rule task h = (ground arith, ground arith)

  pub decide_by-cases :
      (rule : RuleDescriptor) (decision : Decision)
      → decide_by snapshot rules active rule ≡ ok decision
      → (nothing ≡ decision)
        ⊎ ((model : PolicyRule) × (shortage snapshot rule (task_of snapshot.item.sku_id active) ≢ 0)
            × (act snapshot.item.sku_id model
                  (shortage snapshot rule (task_of snapshot.item.sku_id active))
                  (task_of snapshot.item.sku_id active)
                ≡ decision))
  unfolding decide_by
  decide_by-cases rule decision h = elim (Option-cases rule.id) [
    | inl e ↦ inl (ground arith)
    | inr (id, e) ↦
        elim (Bool-cases (
          is_none rule.version_id
          || shortage snapshot rule (task_of snapshot.item.sku_id active) == 0)) [
            | inl stop ↦ inl (ground arith)
            | inr go ↦ elim (Option-cases (find (λ (model : PolicyRule). model.id == id) rules)) [
              | inl missing ↦ absurd (ground arith)
              | inr (model, found) ↦ inr (model, ground arith, ground arith)
            ]
          ]
  ]

module _ (casefold : Text → Text) {F : Type 0} (lt_float : F → F → Bool) (minimum : F)
    (store_id : Uuid) (rules : List PolicyRule) (active : List ReplenishmentTask)
    (snapshot : InventorySnapshot F) where
  -- Where a decision asks for units, the confidence of the snapshot is not below the minimum, the
  -- units are no more than what the backroom holds, and there is a best rule that matches the SKU at
  -- the store, such that the stock on the floor, the units of the active task and the units asked for
  -- are together within the target of the rule. A task that the decision enlarges is open.
  pub decide_sound :
      (decision : Decision)
      → decide casefold lt_float minimum store_id rules active snapshot ≡ ok decision
      → asked decision ≢ 0
      → (lt_float snapshot.confidence minimum ≡ false)
        × ChangesOpen decision
        × (asked decision ≤ snapshot.backroom_qty)
        × ((rule : RuleDescriptor) × (p : ℕ) × IsBest casefold store_id snapshot.item
              (map descriptor rules)
              p
              rule
            × (snapshot.floor_qty
                  + open_quantity (task_of snapshot.item.sku_id active)
                  + asked decision
                ≤ rule.target_floor_qty))
  unfolding decide
  decide_sound decision h some_asked = elim (Bool-cases (lt_float snapshot.confidence minimum)) [
    | inl low ↦ absurd (ground arith)
    | inr high ↦
        elim (Selection-cases
          (select_policy_rule casefold (map descriptor rules) store_id snapshot.item)) [
            | inl unmatched ↦ absurd (ground arith)
            | inr (inl twice) ↦ absurd (ground arith)
            | inr (inr (rule, best)) ↦
                let (p, is_best) =
                  select_policy_rule-chosen casefold store_id snapshot.item (map descriptor rules)
                    best in
                let by : decide_by snapshot rules active rule ≡ ok decision = ground arith in
                elim (decide_by-cases snapshot rules active rule decision by) [
                  | inl e ↦ absurd (some_asked (rw (← e) refl))
                  | inr (model, positive, e) ↦
                      let task = task_of snapshot.item.sku_id active in
                      let (within, on_target) =
                        shortage_bounds snapshot rules active rule task positive in
                      let (opens, amount) =
                        act_lem snapshot.item.sku_id model (shortage snapshot rule task) task in
                      rw (← e)
                        (high, opens, rw amount within, (rule, p, is_best, rw amount on_target))
                ]
          ]
  ]
