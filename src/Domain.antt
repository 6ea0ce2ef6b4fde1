-- ===== src/Domain.antt =====
-- Identifiers, instants and the problem responses that the services share
-- (`src/abacus/api/errors.py`, `class ApiError`). An identifier is a number: a UUID is its 128
-- bits, and a bounded string (an EPC, an event id, a code) is its rank in the order of strings.
-- An instant is a number of microseconds.
use rfid_inventory_replenish.Prelude.{ℕ, ◌*◌, ◌≡◌, refl, ◌⊎◌, inl, inr}

abbrev pub Uuid : Type 0
Uuid = ℕ

abbrev pub Text : Type 0
Text = ℕ

abbrev pub Instant : Type 0
Instant = ℕ

-- `timedelta(seconds=n)`
abbrev pub seconds : ℕ → ℕ
seconds n = n * 1000000

-- The reason of a problem response: its `code`, or its title where it has no code.
pub data Reason : Type 0 where
  forbidden unauthorized permission_denied store_scope_denied policy_scope_denied : Reason
  store_not_found task_not_found policy_not_found policy_version_not_found : Reason
  invalid_policy_scope policy_rule_overlap invalid_policy_store invalid_policy_sku : Reason
  invalid_policy_style invalid_policy_category empty_policy : Reason
  policy_version_status_forbidden policy_creation_conflict policy_has_no_version : Reason
  policy_version_conflict policy_version_immutable policy_rule_update_conflict : Reason
  policy_version_retired active_policy_overlap policy_activation_conflict : Reason
  replenishment_evaluation_conflict task_transition_forbidden invalid_task_transition : Reason
  task_claim_denied task_version_conflict assertion_error : Reason
  value_error runtime_error key_error : Reason
  business_event_time_too_far_in_future business_event_idempotency_conflict : Reason
  business_event_item_not_found business_event_item_already_removed : Reason
  business_event_location_unavailable business_event_store_mismatch : Reason
  stale_business_event business_event_conflict business_event_not_found : Reason

pub record ApiError : Type 0 where
  pub status : ℕ
  pub reason : Reason

-- What a service returns, or the problem response that it raises.
pub data Result {ℓ} (Value : Type ℓ) : Type ℓ where
  err : ApiError → Result Value
  ok : Value → Result Value

abbrev pub raise {ℓ} : {A : Type ℓ} → ℕ → Reason → Result A
raise status reason = err (record { status = status; reason = reason })

infixl 8 ◌>>=◌ ◌>>◌
abbrev pub ◌>>=◌ {ℓ κ} :
    {Before : Type ℓ} {After : Type κ} → Result Before → (Before → Result After) → Result After
◌>>=◌ (err problem) next = err problem
◌>>=◌ (ok value) next = next value

-- A check, and what follows where it passes.
abbrev pub ◌>>◌ {ℓ} : {After : Type ℓ} → Result (Unit {0}) → Result After → Result After
check >> next = check >>= λ _. next

pub Result-cases {ℓ} :
    {A : Type ℓ} (r : Result A) → ((a : A) × (r ≡ ok a)) ⊎ ((e : ApiError) × (r ≡ err e))
Result-cases (ok a) = inl (a, refl)
Result-cases (err e) = inr (e, refl)
