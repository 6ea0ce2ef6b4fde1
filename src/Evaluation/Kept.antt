-- ===== src/Evaluation/Kept.antt =====
-- The tasks that an evaluation leaves alone.
use rfid_inventory_replenish.Prelude.{
  ℕ, ◌≡◌, ◌≢◌, refl, sym, subst, inl, inr, Bool, true, false, Option, none, some, List, [], ◌∷◌,
  ◌++◌, map, arith, In, find, select, update_where, ◌==◌, Option-cases, Bool-cases, if◌then◌else◌,
}
use rfid_inventory_replenish.Domain.{Uuid, Text, Instant, ok, Result-cases}
use rfid_inventory_replenish.Access.{Principal, replenishment_manage, can_access_store}
use rfid_inventory_replenish.Connectivity.{
  Settings, StoreConnectivity, effective_freshness, is_connectivity,
}
use rfid_inventory_replenish.Policy.Rules.{PolicyRule, descriptor, select_policy_rule}
use rfid_inventory_replenish.Policy.Store.{PolicyDb, active_rules}
use rfid_inventory_replenish.Tasks.{TaskStatus, open_, ReplenishmentTask, ensure_store_scope}
use rfid_inventory_replenish.Evaluation.Snapshots.{
  BucketRow, InventorySnapshot, is_wanted, add_rows,
}
use rfid_inventory_replenish.Evaluation.Decide.{
  Decision, low_confidence, nothing, enlarge, defer, create, decide, act, task_of, is_open,
  active_tasks, is_live,
}
use rfid_inventory_replenish.Evaluation.Run.{
  Progress, perform, run_snapshots, evaluate_store, evaluate_replenishment, start,
  is_evaluated_store, enlarged,
}
use rfid_inventory_replenish.Evaluation.Decisions.{Selection-cases, decide_by-cases}

In-append : {A : Type 0} (a : A) (xs ys : List A) → In a xs → In a (xs ++ ys)
In-append a [] ys i = absurd i
In-append a (x ∷ xs) ys i = elim i [ inl e ↦ inl e | inr later ↦ inr (In-append a xs ys later) ]

In-of_select : {A : Type 0} (p : A → Bool) (a : A) (xs : List A) → In a (select p xs) → In a xs
unfolding select
In-of_select p a [] i = i
In-of_select p a (x ∷ xs) i = elim (Bool-cases (p x)) [
  | inl e ↦ elim (rw (e, select) at i) [
    | inl here ↦ inl here
    | inr later ↦ inr (In-of_select p a xs later)
  ]
  | inr e ↦ inr (In-of_select p a xs (rw (e, select) at i))
]

In-update_where :
    {A : Type 0} (p : A → Bool) (f : A → A) (a : A) (xs : List A)
    → p a ≡ false
    → In a xs
    → In a (update_where p f xs)
unfolding update_where
In-update_where p f a [] miss i = i
In-update_where p f a (x ∷ xs) miss i = elim i [
  | inl e ↦ inl (rw (e, miss) refl)
  | inr later ↦ inr (In-update_where p f a xs miss later)
]

task_of-In :
    (sku : Uuid) (tasks : List ReplenishmentTask) (task : ReplenishmentTask)
    → task_of sku tasks ≡ some task
    → In task tasks
unfolding task_of
task_of-In sku [] task h = cc
task_of-In sku (t ∷ ts) task h = elim (Option-cases (task_of sku ts)) [
  | inl e ↦ inl (ground arith)
  | inr (later, e) ↦ inr (task_of-In sku ts task (ground arith))
]

active_tasks-In :
    (tenant_id store_id : Uuid) (tasks : List ReplenishmentTask) (task : ReplenishmentTask)
    → In task (active_tasks tenant_id store_id tasks)
    → In task tasks
unfolding active_tasks
active_tasks-In tenant_id store_id tasks task i = In-of_select _ task tasks i

-- A task that a decision changes is open and one of the active tasks.
abbrev Changes : List ReplenishmentTask → Decision → Type 0
Changes active (enlarge task rule amount) = In task active × (task.status ≡ open_)
Changes active _ = Unit

is_open_lem : (s : TaskStatus) → is_open s ≡ true → s ≡ open_
is_open_lem s h = ground arith

if-Changes :
    (active : List ReplenishmentTask) (b : Bool) (x y : Decision)
    → (b ≡ true → Changes active x)
    → (b ≡ false → Changes active y)
    → Changes active (if b then x else y)
if-Changes active true x y f g = f refl
if-Changes active false x y f g = g refl

act-Changes :
    (active : List ReplenishmentTask) (sku : Uuid) (rule : PolicyRule) (q : ℕ)
    (task : Option ReplenishmentTask)
    → ((t : ReplenishmentTask) → task ≡ some t → In t active)
    → Changes active (act sku rule q task)
unfolding act
act-Changes active sku rule q none member = tt
act-Changes active sku rule q (some task) member =
    if-Changes active (is_open task.status) (enlarge task rule q) (defer q)
      (λ e. (member task refl, is_open_lem task.status e)) (λ _. tt)

module _ (casefold : Text → Text) {F : Type 0} (lt_float : F → F → Bool) (minimum : F)
    (store_id : Uuid) (rules : List PolicyRule) (active : List ReplenishmentTask) where
  decide-Changes :
      (snapshot : InventorySnapshot F) (decision : Decision)
      → decide casefold lt_float minimum store_id rules active snapshot ≡ ok decision
      → Changes active decision
  unfolding decide
  decide-Changes snapshot decision h = elim (Bool-cases (lt_float snapshot.confidence minimum)) [
    | inl low ↦ let same : low_confidence ≡ decision = ground arith in rw (← same) tt
    | inr high ↦
        elim (Selection-cases
          (select_policy_rule casefold (map descriptor rules) store_id snapshot.item)) [
            | inl unmatched ↦ let same : nothing ≡ decision = ground arith in rw (← same) tt
            | inr (inl twice) ↦ absurd (ground arith)
            | inr (inr (rule, best)) ↦
                elim (decide_by-cases snapshot rules active rule decision (ground arith)) [
                  | inl e ↦ rw (← e) tt
                  | inr (model, positive, e) ↦ rw (← e) (
                      act-Changes active snapshot.item.sku_id model _
                        (task_of snapshot.item.sku_id active)
                        (task_of-In snapshot.item.sku_id active))
                ]
          ]
  ]

  -- The rows of the table at the start have distinct ids.
  module _ (tenant_id : Uuid) (fresh : ℕ → Uuid) (now : Instant) (task : ReplenishmentTask)
      (busy : task.status ≢ open_)
      (distinct : (other : ReplenishmentTask)
        → In other active
        → other.id ≡ task.id
        → other ≡ task) where
    perform-In :
        (decision : Decision) (p : Progress)
        → Changes active decision
        → In task p.tasks
        → In task (perform tenant_id store_id fresh now decision p).tasks
    unfolding perform
    perform-In low_confidence p c i = i
    perform-In nothing p c i = i
    perform-In (enlarge other rule amount) p c i = elim (Bool-cases (task.id == other.id)) [
      | inl e ↦ absurd (busy (rw (← distinct other c.0 (ground arith)) c.1))
      | inr e ↦
          In-update_where (λ row. row.id == other.id) (enlarged rule amount now) task p.tasks e i
    ]
    perform-In (defer amount) p c i = i
    perform-In (create sku rule amount) p c i = In-append task p.tasks _ i

    run-In :
        (ss : List (InventorySnapshot F)) (p p' : Progress)
        → run_snapshots casefold lt_float minimum tenant_id store_id fresh now rules active ss p
          ≡ ok p'
        → In task p.tasks
        → In task p'.tasks
    unfolding run_snapshots
    run-In [] p p' h i = let same : p ≡ p' = ground arith in rw (← same) i
    run-In (s ∷ ss) p p' h i =
        elim (Result-cases (decide casefold lt_float minimum store_id rules active s)) [
          | inl (decision, e) ↦
              run-In ss (perform tenant_id store_id fresh now decision p) p' (ground arith)
                (perform-In decision p (decide-Changes s decision e) i)
          | inr (problem, e) ↦ absurd (ground arith)
        ]

module _ (casefold : Text → Text) {F : Type 0} (lt_float : F → F → Bool)
    (minimum zero_float one_float : F) where
  store-In :
      (tenant_id store_id : Uuid) (sku_ids : List Uuid) (fresh : ℕ → Uuid) (now : Instant)
      (conflict : Bool) (rules : List PolicyRule) (rows : List (BucketRow F))
      (tasks : List ReplenishmentTask) (task : ReplenishmentTask)
      → task.status ≢ open_
      → ((other : ReplenishmentTask) → In other tasks → other.id ≡ task.id → other ≡ task)
      → In task tasks
      → In task
          (evaluate_store casefold lt_float minimum zero_float one_float tenant_id store_id sku_ids
            fresh now conflict rules rows tasks).1
  unfolding evaluate_store
  store-In tenant_id store_id sku_ids fresh now conflict [] rows tasks task busy distinct i = i
  store-In tenant_id store_id sku_ids fresh now conflict (r ∷ rs) rows tasks task busy distinct i =
      let after : List ReplenishmentTask =
        (evaluate_store casefold lt_float minimum zero_float one_float tenant_id store_id sku_ids
          fresh now conflict (r ∷ rs) rows tasks).1 in
      let active = active_tasks tenant_id store_id tasks in
      let snapshots =
        add_rows lt_float zero_float one_float (select (is_wanted tenant_id store_id sku_ids) rows)
          [] in
      elim (Result-cases (
        run_snapshots casefold lt_float minimum tenant_id store_id fresh now (r ∷ rs) active
          snapshots (start tasks))) [
            | inr (problem, e) ↦
                let same : after ≡ tasks = ground arith in subst (λ ts. In task ts) (sym same) i
            | inl (p, e) ↦
                let kept =
                  run-In casefold lt_float minimum store_id (r ∷ rs) active tenant_id fresh now task
                    busy
                    (λ other j. distinct other (active_tasks-In tenant_id store_id tasks other j))
                    snapshots (start tasks) p e i in
                elim (Bool-cases conflict) [
                  | inl c ↦
                      let same : after ≡ tasks = ground arith in
                      subst (λ ts. In task ts) (sym same) i
                  | inr c ↦
                      let same : after ≡ p.tasks = ground arith in
                      subst (λ ts. In task ts) (sym same) kept
                ]
          ]

  -- An evaluation, whatever it returns, leaves a task that is not open exactly as it is: a task that
  -- is claimed or in progress is not changed behind the picker. No other task has its id.
  pub evaluate_replenishment-kept :
      (principal : Principal) (store_id : Uuid) (sku_ids : List Uuid) (settings : Settings)
      (fresh : ℕ → Uuid) (now : Instant) (conflict : Bool) (db : PolicyDb)
      (connectivity : List StoreConnectivity) (rows : List (BucketRow F))
      (tasks : List ReplenishmentTask) (task : ReplenishmentTask)
      → task.status ≢ open_
      → ((other : ReplenishmentTask) → In other tasks → other.id ≡ task.id → other ≡ task)
      → In task tasks
      → In task
          (evaluate_replenishment casefold lt_float minimum zero_float one_float principal store_id
            sku_ids settings fresh now conflict db connectivity rows tasks).1
  unfolding evaluate_replenishment ensure_store_scope
  evaluate_replenishment-kept principal store_id sku_ids settings fresh now conflict db connectivity
        rows tasks task busy distinct i =
      let after : List ReplenishmentTask =
        (evaluate_replenishment casefold lt_float minimum zero_float one_float principal store_id
          sku_ids settings fresh now conflict db connectivity rows tasks).1 in
      elim (Bool-cases (can_access_store principal replenishment_manage store_id)) [
        | inr denied ↦
            let same : after ≡ tasks = ground arith in subst (λ ts. In task ts) (sym same) i
        | inl granted ↦
            elim (Option-cases (find (is_evaluated_store principal.tenant_id store_id) db.stores)) [
              | inl missing ↦
                  let same : after ≡ tasks = ground arith in subst (λ ts. In task ts) (sym same) i
              | inr (store, e) ↦
                  elim (Bool-cases (
                    is_live (
                      effective_freshness settings now
                        (find (is_connectivity principal.tenant_id store.id) connectivity)))) [
                          | inr not_live ↦
                              let same : after ≡ tasks = ground arith in
                              subst (λ ts. In task ts) (sym same) i
                          | inl lives ↦
                              let same : after
                                  ≡ (evaluate_store casefold lt_float minimum zero_float one_float
                                      principal.tenant_id store.id sku_ids fresh now conflict
                                      (active_rules db principal.tenant_id) rows tasks).1 =
                                ground arith in
                              subst (λ ts. In task ts) (sym same)
                                (store-In principal.tenant_id store.id sku_ids fresh now conflict
                                  (active_rules db principal.tenant_id) rows tasks task busy
                                  distinct i)
                        ]
            ]
      ]
