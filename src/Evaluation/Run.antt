-- ===== src/Evaluation/Run.antt =====
-- What an evaluation writes (`evaluate_replenishment` of `src/abacus/services/replenishment.py`).
-- The rows of the query are an argument.
use rfid_inventory_replenish.Prelude.{
  ℕ, suc, ◌+◌, Bool, true, false, not, ◌&&◌, none, some, List, [], ◌∷◌, ◌++◌, find, select,
  update_where, ◌==◌, if◌then◌else◌, length,
}
use rfid_inventory_replenish.Domain.{
  Uuid, Text, Instant, Result, ok, err, raise, ◌>>=◌, store_not_found,
  replenishment_evaluation_conflict,
}
use rfid_inventory_replenish.Access.{Principal, replenishment_manage}
use rfid_inventory_replenish.Connectivity.{
  Settings, StoreConnectivity, is_connectivity, effective_freshness,
}
use rfid_inventory_replenish.Policy.Rules.{PolicyRule}
use rfid_inventory_replenish.Policy.Store.{PolicyDb, Store, active_rules}
use rfid_inventory_replenish.Tasks.{open_, ReplenishmentTask, ensure_store_scope}
use rfid_inventory_replenish.Evaluation.Snapshots.{
  BucketRow, InventorySnapshot, is_wanted, add_rows,
}
use rfid_inventory_replenish.Evaluation.Decide.{
  is_active_store, is_live, active_tasks, Decision, decide, low_confidence, nothing, enlarge, defer,
  create,
}

pub record EvaluationResult : Type 0 where
  pub store_id : Uuid
  pub tasks : List ReplenishmentTask
  pub updated_tasks : List ReplenishmentTask
  pub suppressed_connectivity : Bool
  pub suppressed_low_confidence : ℕ
  pub deferred_count : ℕ
  pub deferred_quantity : ℕ

-- The tables and counters of the loop.
pub record Progress : Type 0 where
  pub tasks : List ReplenishmentTask
  pub created : List ReplenishmentTask
  pub updated : List Uuid
  pub suppressed_low_confidence : ℕ
  pub deferred_count : ℕ
  pub deferred_quantity : ℕ

abbrev pub new_task : Uuid → Uuid → Uuid → Uuid → PolicyRule → ℕ → Instant → ReplenishmentTask
new_task id tenant store sku rule amount now = record {
  id = id;
  tenant_id = tenant;
  store_id = store;
  sku_id = sku;
  policy_version_id = rule.version_id;
  policy_rule_id = rule.id;
  status = open_;
  quantity = amount;
  verified_quantity = 0;
  verification_deadline = none;
  version = 1;
  claimed_by_user_id = none;
  claimed_at = none;
  started_at = none;
  completed_at = none;
  expires_at = none;
  note = none;
  created_at = now;
  updated_at = now;
}

abbrev pub enlarged : PolicyRule → ℕ → Instant → ReplenishmentTask → ReplenishmentTask
enlarged rule amount now task = record task {
  quantity = task.quantity + amount;
  version = task.version + 1;
  policy_version_id = rule.version_id;
  policy_rule_id = rule.id;
  updated_at = now;
}

unfoldable pub perform : Uuid → Uuid → (ℕ → Uuid) → Instant → Decision → Progress → Progress
perform tenant store fresh now low_confidence p = record p {
  suppressed_low_confidence = suc p.suppressed_low_confidence;
}
perform tenant store fresh now nothing p = p
perform tenant store fresh now (enlarge task rule amount) p = record p {
  tasks = update_where (λ row. row.id == task.id) (enlarged rule amount now) p.tasks;
  updated = p.updated ++ (task.id ∷ []);
}
perform tenant store fresh now (defer amount) p = record p {
  deferred_count = suc p.deferred_count;
  deferred_quantity = p.deferred_quantity + amount;
}
perform tenant store fresh now (create sku rule amount) p =
    let task = new_task (fresh (length p.created)) tenant store sku rule amount now in
    record p { tasks = p.tasks ++ (task ∷ []); created = p.created ++ (task ∷ []) }

-- The rows of the ids, in the order of the ids.
unfoldable pub rows_of : List Uuid → List ReplenishmentTask → List ReplenishmentTask
rows_of [] tasks = []
rows_of (id ∷ ids) tasks =
    let rest = rows_of ids tasks in
    elim (find (λ row. row.id == id) tasks) [ none ↦ rest | some row ↦ row ∷ rest ]

abbrev pub start : List ReplenishmentTask → Progress
start tasks = record {
  tasks = tasks;
  created = [];
  updated = [];
  suppressed_low_confidence = 0;
  deferred_count = 0;
  deferred_quantity = 0;
}

abbrev pub no_work : Uuid → Bool → EvaluationResult
no_work store suppressed = record {
  store_id = store;
  tasks = [];
  updated_tasks = [];
  suppressed_connectivity = suppressed;
  suppressed_low_confidence = 0;
  deferred_count = 0;
  deferred_quantity = 0;
}

abbrev pub is_evaluated_store : Uuid → Uuid → Store → Bool
is_evaluated_store tenant_id store_id store =
    store.tenant_id == tenant_id && store.id == store_id && is_active_store store.status

module _ (casefold : Text → Text) {F : Type 0} (lt_float : F → F → Bool) (minimum : F) where
  unfoldable pub run_snapshots :
      Uuid
      → Uuid
      → (ℕ → Uuid)
      → Instant
      → List PolicyRule
      → List ReplenishmentTask
      → List (InventorySnapshot F)
      → Progress
      → Result Progress
  run_snapshots tenant_id store_id fresh now rules active [] p = ok p
  run_snapshots tenant_id store_id fresh now rules active (s ∷ ss) p =
      decide casefold lt_float minimum store_id rules active s >>= λ decision.
      run_snapshots tenant_id store_id fresh now rules active ss
        (perform tenant_id store_id fresh now decision p)

  -- After the freshness check: the rules, the snapshots, the loop and the commit.
  unfoldable pub evaluate_store :
      (zero_float one_float : F)
      → Uuid
      → Uuid
      → List Uuid
      → (ℕ → Uuid)
      → Instant
      → Bool
      → List PolicyRule
      → List (BucketRow F)
      → List ReplenishmentTask
      → Result EvaluationResult × List ReplenishmentTask
  evaluate_store zero_float one_float tenant_id store sku_ids fresh now conflict [] rows tasks =
      (ok (no_work store false), tasks)
  evaluate_store zero_float one_float tenant_id store sku_ids fresh now conflict (r ∷ rs) rows
        tasks =
      let wanted = select (is_wanted tenant_id store sku_ids) rows in
      let snapshots = add_rows lt_float zero_float one_float wanted [] in
      elim (run_snapshots tenant_id store fresh now (r ∷ rs) (active_tasks tenant_id store tasks)
        snapshots (start tasks)) [
          | err e ↦ (err e, tasks)
          | ok p ↦ if conflict then (raise 409 replenishment_evaluation_conflict, tasks) else (
            ok (record {
              store_id = store;
              tasks = p.created;
              updated_tasks = rows_of p.updated p.tasks;
              suppressed_connectivity = false;
              suppressed_low_confidence = p.suppressed_low_confidence;
              deferred_count = p.deferred_count;
              deferred_quantity = p.deferred_quantity;
            }),
            p.tasks,
          )
        ]

  unfoldable pub evaluate_replenishment :
      (zero_float one_float : F)
      → Principal
      → Uuid
      → List Uuid
      → Settings
      → (ℕ → Uuid)
      → Instant
      → Bool
      → PolicyDb
      → List StoreConnectivity
      → List (BucketRow F)
      → List ReplenishmentTask
      → Result EvaluationResult × List ReplenishmentTask
  evaluate_replenishment zero_float one_float principal store_id sku_ids settings fresh now conflict
        db connectivity rows tasks =
      let tenant_id = principal.tenant_id in
      elim (ensure_store_scope principal replenishment_manage store_id) [
        | err e ↦ (err e, tasks)
        | ok _ ↦ elim (find (is_evaluated_store tenant_id store_id) db.stores) [
          | none ↦ (raise 404 store_not_found, tasks)
          | some store ↦
              let row = find (is_connectivity tenant_id store.id) connectivity in
              if not (is_live (effective_freshness settings now row))
              then (ok (no_work store.id true), tasks)
              else evaluate_store zero_float one_float tenant_id store.id sku_ids fresh now conflict
                  (active_rules db tenant_id) rows tasks
        ]
      ]
