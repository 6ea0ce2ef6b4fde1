-- ===== src/Jobs.antt =====
-- The durable job queue (`src/abacus/services/jobs.py`; `DurableJob` of `src/abacus/models/jobs.py`;
-- `src/abacus/enums.py`). `now` is the clock of the database at the call. A query with
-- `skip_locked` passes over the rows that other transactions hold at that moment: which those are
-- is an argument, as is the id of a new row. The text of a handler's error is an argument.
pub mod Rows
pub mod Laws
pub mod Attempts
pub mod Claims
pub mod Tests
use rfid_inventory_replenish.Prelude.{
  ℕ, ◌+◌, ◌^◌, max, min, ltb, leb, Bool, true, false, not, ◌&&◌, ◌||◌, Option, none, some, List, [],
  ◌∷◌, map, take, select, find, any, update_where, count_where, sort_by, ◌==◌, ◌==?◌, if◌then◌else◌,
}
use rfid_inventory_replenish.Domain.{Uuid, Text, Instant, seconds}

pub data JobKind : Type 0 where
  catalog_import rfid_observation replenishment_recalc : JobKind

pub data JobStatus : Type 0 where
  pending processing completed failed quarantined : JobStatus

pub data TenantStatus : Type 0 where
  provisioning active suspended : TenantStatus

pub data JobError : Type 0 where
  lease_expired maximum_attempts_exceeded : JobError
  raised : Text → JobError

pub record DurableJob : Type 0 where
  pub id : Uuid
  pub tenant_id : Uuid
  pub kind : JobKind
  pub payload : Text
  pub status : JobStatus
  pub attempts : ℕ
  pub available_at : Instant
  pub lease_expires_at : Option Instant
  pub locked_by : Option Text
  pub last_error : Option JobError
  pub created_at : Instant

pub record Tenant : Type 0 where
  pub id : Uuid
  pub status : TenantStatus

pub record JobDb : Type 0 where
  pub jobs : List DurableJob
  pub tenants : List Tenant

abbrev pub is_pending : JobStatus → Bool
is_pending JobStatus.pending = true
is_pending _ = false

abbrev pub is_processing : JobStatus → Bool
is_processing JobStatus.processing = true
is_processing _ = false

abbrev is_active : TenantStatus → Bool
is_active TenantStatus.active = true
is_active _ = false

abbrev pub kind_index : JobKind → ℕ
kind_index JobKind.catalog_import = 0
kind_index JobKind.rfid_observation = 1
kind_index JobKind.replenishment_recalc = 2

abbrev pub is_job : Uuid → DurableJob → Bool
is_job id job = job.id == id

unfoldable pub enqueue_job :
    Uuid → Uuid → JobKind → Text → Option Instant → Instant → JobDb → DurableJob × JobDb
enqueue_job id tenant_id kind payload available_at now db =
    let job : DurableJob = record {
      id = id;
      tenant_id = tenant_id;
      kind = kind;
      payload = payload;
      status = JobStatus.pending;
      attempts = 0;
      available_at = elim available_at [ none ↦ now | some at ↦ at ];
      lease_expires_at = none;
      locked_by = none;
      last_error = none;
      created_at = now;
    } in
    (job, record db { jobs = job ∷ db.jobs })

-- `lease_expires_at IS NOT NULL AND lease_expires_at <= now`
abbrev pub is_lease_over : Instant → DurableJob → Bool
is_lease_over now job = elim job.lease_expires_at [ none ↦ false | some at ↦ leb at now ]

-- Pending and available, or processing with a lease that is over.
unfoldable pub is_due : Instant → DurableJob → Bool
is_due now job =
    is_pending job.status && leb job.available_at now
    || is_processing job.status && is_lease_over now job

-- The arguments of a claim.
pub record Claim : Type 0 where
  pub worker_id : Text
  pub limit : ℕ
  pub lease_seconds : ℕ
  pub max_attempts : ℕ
  pub tenant_id : Option Uuid
  pub kinds : Option (List JobKind)

unfoldable pub in_scope : Claim → DurableJob → Bool
in_scope claim job =
    elim claim.tenant_id [ none ↦ true | some t ↦ job.tenant_id == t ] && elim claim.kinds [
      | none ↦ true
      | some kinds ↦ any (λ kind. kind_index kind == kind_index job.kind) kinds
    ]

abbrev pub by_created_at : DurableJob → DurableJob → Bool
by_created_at a b = leb a.created_at b.created_at

unfoldable pub exhausted_jobs :
    Claim → Instant → (skipped : Uuid → Bool) → List DurableJob → List DurableJob
exhausted_jobs claim now skipped jobs = take (max claim.limit 1) (
    sort_by by_created_at (
      select
        (λ job.
          in_scope claim job
          && leb claim.max_attempts job.attempts
          && is_due now job
          && not (skipped job.id))
        jobs))

unfoldable pub terminalized : DurableJob → DurableJob
terminalized job = record job {
  status = JobStatus.quarantined;
  locked_by = none;
  lease_expires_at = none;
  last_error = some (if is_processing job.status then lease_expired else maximum_attempts_exceeded);
}

-- The join with the tenants that are active.
abbrev pub has_active_tenant : List Tenant → DurableJob → Bool
has_active_tenant tenants job =
    any (λ tenant. tenant.id == job.tenant_id && is_active tenant.status) tenants

unfoldable pub claimable_jobs :
    Claim → Instant → (skipped : Uuid → Bool) → List Tenant → List DurableJob → List DurableJob
claimable_jobs claim now skipped tenants jobs = take claim.limit (
    sort_by by_created_at (
      select
        (λ job.
          in_scope claim job
          && is_due now job
          && ltb job.attempts claim.max_attempts
          && has_active_tenant tenants job
          && not (skipped job.id))
        jobs))

unfoldable pub leased : Claim → Instant → DurableJob → DurableJob
leased claim now job = record job {
  status = JobStatus.processing;
  locked_by = some claim.worker_id;
  lease_expires_at = some (now + seconds claim.lease_seconds);
  attempts = job.attempts + 1;
}

-- The row is one of those, by its id.
abbrev pub is_among : List DurableJob → DurableJob → Bool
is_among rows job = any (λ row. row.id == job.id) rows

-- `skipped` are the rows that others hold at the first query, `skipped'` at the second.
unfoldable pub claim_jobs :
    Claim
    → Instant
    → (skipped : Uuid → Bool) → (skipped' : Uuid → Bool) → JobDb
    → List DurableJob × JobDb
claim_jobs claim now skipped skipped' db =
    let kept =
      update_where (is_among (exhausted_jobs claim now skipped db.jobs)) terminalized db.jobs in
    let rows = claimable_jobs claim now skipped' db.tenants kept in
    (
      map (leased claim now) rows,
      record db { jobs = update_where (is_among rows) (leased claim now) kept },
    )

-- `status = 'PROCESSING' AND locked_by = worker_id`
unfoldable pub is_held_by : Uuid → Text → DurableJob → Bool
is_held_by id worker_id job =
    job.id == id && is_processing job.status && job.locked_by ==? some worker_id

-- An UPDATE that is kept if it meets one row, and rolled back otherwise.
unfoldable pub update_one : (DurableJob → Bool) → (DurableJob → DurableJob) → JobDb → Bool × JobDb
update_one p f db =
    if count_where p db.jobs == 1
    then (true, record db { jobs = update_where p f db.jobs })
    else (false, db)

unfoldable pub renew_lease : Uuid → Text → ℕ → Instant → JobDb → Bool × JobDb
renew_lease id worker_id lease_seconds now =
    update_one
      (λ job.
        is_held_by id worker_id job
        && elim job.lease_expires_at [ none ↦ false | some at ↦ ltb now at ])
      (λ job. record job { lease_expires_at = some (now + seconds lease_seconds) })

unfoldable pub mark_completed : Uuid → Text → JobDb → Bool × JobDb
mark_completed id worker_id = update_one (is_held_by id worker_id) (λ job. record job {
  status = JobStatus.completed;
  locked_by = none;
  lease_expires_at = none;
  last_error = none;
})

unfoldable pub retry_delay : ℕ → ℕ
retry_delay attempts = min 300 (2 ^ min attempts 8)

unfoldable pub failed_job : Text → ℕ → Instant → DurableJob → DurableJob
failed_job error max_attempts now job =
    let freed : DurableJob = record job {
      last_error = some (raised error);
      locked_by = none;
      lease_expires_at = none;
    } in
    if leb max_attempts job.attempts
    then (record freed { status = JobStatus.quarantined })
    else (record freed {
      status = JobStatus.pending;
      available_at = now + seconds (retry_delay job.attempts);
    })

unfoldable pub mark_failed : Uuid → Text → Text → ℕ → Instant → JobDb → Bool × JobDb
mark_failed id worker_id error max_attempts now db = elim (find (is_job id) db.jobs) [
  | none ↦ (false, db)
  | some job ↦
      if not (is_processing job.status) || not (job.locked_by ==? some worker_id)
      then (false, db)
      else (
        true,
        record db { jobs = update_where (is_job id) (failed_job error max_attempts now) db.jobs },
      )
]
