-- ===== src/Evaluation/Overlap.antt =====
-- An evaluation and the overlap of active rules.
use rfid_inventory_replenish.Prelude.{
  ℕ, ◌≡◌, ◌≢◌, inl, inr, Bool, ◌||◌, none, List, [], ◌∷◌, map, arith, find, select, is_none, ◌==◌,
  Option-cases, Bool-cases,
}
use rfid_inventory_replenish.Domain.{
  Uuid, Text, Instant, err, ApiError, Result-cases, active_policy_overlap,
}
use rfid_inventory_replenish.Access.{Principal, replenishment_manage, can_access_store}
use rfid_inventory_replenish.Connectivity.{
  Settings, StoreConnectivity, effective_freshness, is_connectivity,
}
use rfid_inventory_replenish.Policy.Rules.{
  PolicyRule, RuleDescriptor, descriptor, select_policy_rule, first_overlap,
}
use rfid_inventory_replenish.Policy.Overlap.{select_policy_rule-ne-ambiguous}
use rfid_inventory_replenish.Policy.Store.{PolicyDb, active_rules}
use rfid_inventory_replenish.Tasks.{ReplenishmentTask, ensure_store_scope}
use rfid_inventory_replenish.Evaluation.Snapshots.{
  BucketRow, InventorySnapshot, is_wanted, add_rows,
}
use rfid_inventory_replenish.Evaluation.Decide.{
  decide, decide_by, shortage, task_of, active_tasks, is_live,
}
use rfid_inventory_replenish.Evaluation.Run.{
  Progress, perform, run_snapshots, evaluate_store, evaluate_replenishment, start,
  is_evaluated_store,
}
use rfid_inventory_replenish.Evaluation.Decisions.{Selection-cases}

-- The response to an ambiguous choice.
abbrev pub overlap_error : ApiError
overlap_error = record { status = 409; reason = active_policy_overlap }

decide_by-ne-overlap :
    {F : Type 0} (snapshot : InventorySnapshot F) (rules : List PolicyRule)
    (active : List ReplenishmentTask) (rule : RuleDescriptor)
    → decide_by snapshot rules active rule ≢ err overlap_error
unfolding decide_by
decide_by-ne-overlap snapshot rules active rule h = elim (Option-cases rule.id) [
  | inl e ↦ ground arith
  | inr (id, e) ↦
      elim (Bool-cases (
        is_none rule.version_id
        || shortage snapshot rule (task_of snapshot.item.sku_id active) == 0)) [
          | inl stop ↦ ground arith
          | inr go ↦ elim (Option-cases (find (λ (model : PolicyRule). model.id == id) rules)) [
            | inl missing ↦ ground arith
            | inr (model, found) ↦ ground arith
          ]
        ]
]

module _ (casefold : Text → Text) {F : Type 0} (lt_float : F → F → Bool) (minimum : F)
    (store_id : Uuid) (rules : List PolicyRule)
    (clear : first_overlap casefold (map descriptor rules) ≡ none)
    (active : List ReplenishmentTask) where
  decide-ne-overlap :
      (snapshot : InventorySnapshot F)
      → decide casefold lt_float minimum store_id rules active snapshot ≢ err overlap_error
  unfolding decide
  decide-ne-overlap snapshot h = elim (Bool-cases (lt_float snapshot.confidence minimum)) [
    | inl low ↦ ground arith
    | inr high ↦
        elim (Selection-cases
          (select_policy_rule casefold (map descriptor rules) store_id snapshot.item)) [
            | inl unmatched ↦ ground arith
            | inr (inl twice) ↦
                select_policy_rule-ne-ambiguous casefold (map descriptor rules) store_id
                  snapshot.item clear twice
            | inr (inr (rule, best)) ↦
                decide_by-ne-overlap snapshot rules active rule (ground arith)
          ]
  ]

  run-ne-overlap :
      (tenant_id : Uuid) (fresh : ℕ → Uuid) (now : Instant) (ss : List (InventorySnapshot F))
      (p : Progress)
      → run_snapshots casefold lt_float minimum tenant_id store_id fresh now rules active ss p
        ≢ err overlap_error
  unfolding run_snapshots
  run-ne-overlap tenant_id fresh now [] p h = ground arith
  run-ne-overlap tenant_id fresh now (s ∷ ss) p h =
      elim (Result-cases (decide casefold lt_float minimum store_id rules active s)) [
        | inl (decision, e) ↦
            run-ne-overlap tenant_id fresh now ss (perform tenant_id store_id fresh now decision p)
              (ground arith)
        | inr (problem, e) ↦ decide-ne-overlap s (ground arith)
      ]

module _ (casefold : Text → Text) {F : Type 0} (lt_float : F → F → Bool)
    (minimum zero_float one_float : F) where
  store-ne-overlap :
      (tenant_id store_id : Uuid) (sku_ids : List Uuid) (fresh : ℕ → Uuid) (now : Instant)
      (conflict : Bool) (rules : List PolicyRule) (rows : List (BucketRow F))
      (tasks : List ReplenishmentTask)
      → first_overlap casefold (map descriptor rules) ≡ none
      → (evaluate_store casefold lt_float minimum zero_float one_float tenant_id store_id sku_ids
          fresh now conflict rules rows tasks).0
        ≢ err overlap_error
  unfolding evaluate_store
  store-ne-overlap tenant_id store_id sku_ids fresh now conflict [] rows tasks clear h =
      ground arith
  store-ne-overlap tenant_id store_id sku_ids fresh now conflict (r ∷ rs) rows tasks clear h =
      let active = active_tasks tenant_id store_id tasks in
      let snapshots =
        add_rows lt_float zero_float one_float (select (is_wanted tenant_id store_id sku_ids) rows)
          [] in
      elim (Result-cases (
        run_snapshots casefold lt_float minimum tenant_id store_id fresh now (r ∷ rs) active
          snapshots (start tasks))) [
            | inl (p, e) ↦ ground arith
            | inr (problem, e) ↦
                run-ne-overlap casefold lt_float minimum store_id (r ∷ rs) clear active tenant_id
                  fresh now snapshots (start tasks) (ground arith)
          ]

  -- If no two active rules of the tenant overlap, an evaluation never reports an ambiguous policy.
  pub evaluate_replenishment-ne-overlap :
      (principal : Principal) (store_id : Uuid) (sku_ids : List Uuid) (settings : Settings)
      (fresh : ℕ → Uuid) (now : Instant) (conflict : Bool) (db : PolicyDb)
      (connectivity : List StoreConnectivity) (rows : List (BucketRow F))
      (tasks : List ReplenishmentTask)
      → first_overlap casefold (map descriptor (active_rules db principal.tenant_id)) ≡ none
      → (evaluate_replenishment casefold lt_float minimum zero_float one_float principal store_id
          sku_ids settings fresh now conflict db connectivity rows tasks).0
        ≢ err overlap_error
  unfolding evaluate_replenishment ensure_store_scope
  evaluate_replenishment-ne-overlap principal store_id sku_ids settings fresh now conflict db
        connectivity rows tasks clear h =
      elim (Bool-cases (can_access_store principal replenishment_manage store_id)) [
        | inr denied ↦ ground arith
        | inl granted ↦
            elim (Option-cases (find (is_evaluated_store principal.tenant_id store_id) db.stores)) [
              | inl missing ↦ ground arith
              | inr (store, e) ↦
                  elim (Bool-cases (
                    is_live (
                      effective_freshness settings now
                        (find (is_connectivity principal.tenant_id store.id) connectivity)))) [
                          | inr not_live ↦ ground arith
                          | inl lives ↦
                              store-ne-overlap principal.tenant_id store.id sku_ids fresh now
                                conflict (active_rules db principal.tenant_id) rows tasks clear
                                (ground arith)
                        ]
            ]
      ]
