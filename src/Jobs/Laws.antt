-- ===== src/Jobs/Laws.antt =====
-- What the operations on the job queue keep: finished jobs, leases that are not over, and the bound
-- on the attempts.
use rfid_inventory_replenish.Prelude.{
  ℕ, max, ◌≡◌, refl, sym, ◌∙◌, inl, inr, ltb, leb, Bool, true, false, not, ◌&&◌, ◌||◌, Option, some,
  List, arith, All, All-imp, All-of_In, In, find, find-some, find-All, count_where_none,
  update_where, ◌==◌, ◌==?◌, Bool-cases, Option-cases,
}
use rfid_inventory_replenish.Domain.{Uuid, Text, Instant}
use rfid_inventory_replenish.Jobs.{
  JobKind, DurableJob, JobDb, Claim, is_pending, is_processing, is_job, is_lease_over, is_due,
  in_scope, has_active_tenant, by_created_at, enqueue_job, exhausted_jobs, terminalized,
  claimable_jobs, leased, is_among, claim_jobs, is_held_by, update_one, renew_lease, mark_completed,
  mark_failed,
}
use rfid_inventory_replenish.Jobs.Rows.{
  OneJob, select-Chosen, among-Chosen, In-update_where_miss, update_where-OneJob,
}

-- The operations.
pub data Op : Type 0 where
  enqueue : (id tenant_id : Uuid) → JobKind → Text → Option Instant → Instant → Op
  claim : Claim → Instant → (skipped skipped' : Uuid → Bool) → Op
  renew : (id : Uuid) → (worker_id : Text) → ℕ → Instant → Op
  complete : (id : Uuid) → (worker_id : Text) → Op
  fail : (id : Uuid) → (worker_id : Text) → Text → ℕ → Instant → Op

unfoldable pub run : Op → JobDb → JobDb
run (enqueue id tenant_id kind payload available_at now) db =
    (enqueue_job id tenant_id kind payload available_at now db).1
run (claim c now skipped skipped') db = (claim_jobs c now skipped skipped' db).1
run (renew id worker_id lease_seconds now) db = (renew_lease id worker_id lease_seconds now db).1
run (complete id worker_id) db = (mark_completed id worker_id db).1
run (fail id worker_id error max_attempts now) db =
    (mark_failed id worker_id error max_attempts now db).1

abbrev pub is_live : DurableJob → Bool
is_live job = is_pending job.status || is_processing job.status

exhausted-due :
    (c : Claim) (now : Instant) (skipped : Uuid → Bool) (jobs : List DurableJob) (job : DurableJob)
    → OneJob jobs
    → In job jobs
    → is_among (exhausted_jobs c now skipped jobs) job ≡ true
    → is_due now job ≡ true
unfolding exhausted_jobs
exhausted-due c now skipped jobs job one i e =
    let p = λ (row : DurableJob).
      in_scope c row && leb c.max_attempts row.attempts && is_due now row && not (skipped row.id) in
    let chosen : p job ≡ true =
      among-Chosen p jobs _ job one (select-Chosen by_created_at p (max c.limit 1) jobs) i e in
    ground (arith, chosen)

pub claimable-due :
    (c : Claim) (now : Instant) (skipped : Uuid → Bool) (db : JobDb) (jobs : List DurableJob)
    (job : DurableJob)
    → OneJob jobs
    → In job jobs
    → is_among (claimable_jobs c now skipped db.tenants jobs) job ≡ true
    → (is_due now job && ltb job.attempts c.max_attempts) ≡ true
unfolding claimable_jobs
claimable-due c now skipped db jobs job one i e =
    let p = λ (row : DurableJob).
      in_scope c row
      && is_due now row
      && ltb row.attempts c.max_attempts
      && has_active_tenant db.tenants row
      && not (skipped row.id) in
    let chosen : p job ≡ true =
      among-Chosen p jobs _ job one (select-Chosen by_created_at p c.limit jobs) i e in
    ground (arith, chosen)

not_true : (b : Bool) (c : Bool) → (b ≡ true → c ≡ true) → c ≡ false → b ≡ false
not_true true c h e = sym (h refl) ∙ e
not_true false c h e = refl

pub terminalized-OneJob :
    (c : Claim) (now : Instant) (skipped : Uuid → Bool) (jobs : List DurableJob)
    → OneJob jobs
    → OneJob (update_where (is_among (exhausted_jobs c now skipped jobs)) terminalized jobs)
unfolding terminalized
terminalized-OneJob c now skipped jobs one =
    update_where-OneJob (is_among (exhausted_jobs c now skipped jobs)) terminalized (λ job. refl)
      jobs one

-- A claim leaves a job that is not due.
claim_jobs-keeps :
    (c : Claim) (now : Instant) (skipped skipped' : Uuid → Bool) (db : JobDb) (job : DurableJob)
    → OneJob db.jobs
    → In job db.jobs
    → is_due now job ≡ false
    → In job (claim_jobs c now skipped skipped' db).1.jobs
unfolding claim_jobs
claim_jobs-keeps c now skipped skipped' db job one i idle =
    let rows = exhausted_jobs c now skipped db.jobs in
    let kept = update_where (is_among rows) terminalized db.jobs in
    let still : In job kept =
      In-update_where_miss (is_among rows) terminalized job db.jobs
        (not_true (is_among rows job) (is_due now job)
          (exhausted-due c now skipped db.jobs job one i) idle)
        i in
    let rows' = claimable_jobs c now skipped' db.tenants kept in
    In-update_where_miss (is_among rows') (leased c now) job kept
      (not_true (is_among rows' job) (is_due now job && ltb job.attempts c.max_attempts)
        (claimable-due c now skipped' db kept job (terminalized-OneJob c now skipped db.jobs one)
          still)
        (ground (arith, idle)))
      still

-- The row of an id is the only one.
find_the_job :
    (jobs : List DurableJob) (id : Uuid) (row job : DurableJob)
    → OneJob jobs
    → find (is_job id) jobs ≡ some row
    → In job jobs
    → is_job id job ≡ true
    → row ≡ job
find_the_job jobs id row job one found i e =
    let there : In row jobs =
      find-All (is_job id) (λ r. In r jobs) jobs row (All-of_In (λ r. In r jobs) jobs (λ a j. j))
        found in
    let id_of : is_job id row ≡ true = find-some (is_job id) jobs row found in
    one row job there i (ground (arith, id_of, e))

update_one-refused :
    (p : DurableJob → Bool) (f : DurableJob → DurableJob) (db : JobDb)
    → All (λ job. p job ≡ false) db.jobs
    → update_one p f db ≡ (false, db)
unfolding update_one
update_one-refused p f db none_there = rw (count_where_none p db.jobs none_there) refl

not_held :
    (db : JobDb) (job : DurableJob) (worker_id : Text)
    → OneJob db.jobs
    → In job db.jobs
    → (job.locked_by ==? some worker_id) ≡ false
    → All (λ row. is_held_by job.id worker_id row ≡ false) db.jobs
unfolding is_held_by
not_held db job worker_id one i other =
    All-of_In (λ row. is_held_by job.id worker_id row ≡ false) db.jobs
      (λ row j. elim (Bool-cases (row.id == job.id)) [
        | inr e ↦ ground (arith, e)
        | inl e ↦
            let same : row ≡ job = one row job j i (ground (arith, e)) in
            rw same (ground (arith, other))
      ])

-- A job that a worker holds under a lease that is not over stays as it is in every claim, if the rows
-- of the queue have different ids.
pub claim_jobs-held :
    (c : Claim) (now : Instant) (skipped skipped' : Uuid → Bool) (db : JobDb) (job : DurableJob)
    → OneJob db.jobs
    → In job db.jobs
    → is_processing job.status ≡ true
    → is_lease_over now job ≡ false
    → In job (claim_jobs c now skipped skipped' db).1.jobs
unfolding is_due
claim_jobs-held c now skipped skipped' db job one i held leased =
    claim_jobs-keeps c now skipped skipped' db job one i (ground (arith, held, leased))

mark_failed-refused :
    (db : JobDb) (job : DurableJob) (worker_id error : Text) (max_attempts : ℕ) (now : Instant)
    → OneJob db.jobs
    → In job db.jobs
    → (job.locked_by ==? some worker_id) ≡ false
    → mark_failed job.id worker_id error max_attempts now db ≡ (false, db)
unfolding mark_failed
mark_failed-refused db job worker_id error max_attempts now one i other =
    elim (Option-cases (find (is_job job.id) db.jobs)) [
      | inl e ↦ rw (e, mark_failed) refl
      | inr (row, e) ↦
          let same = find_the_job db.jobs job.id row job one e i (ground arith) in
          let refuses : (not (is_processing row.status) || not (row.locked_by ==? some worker_id))
              ≡ true =
            rw same (ground (arith, other)) in
          rw (e, refuses, mark_failed) refl
    ]

-- A worker that does not hold a job, since its lease was taken by another or it never had it, cannot
-- renew the lease, complete the job or fail it: each call returns false and leaves the tables, if
-- the rows of the queue have different ids.
pub stale_worker_refused :
    (db : JobDb) (job : DurableJob) (worker_id error : Text) (lease_seconds max_attempts : ℕ)
    (now : Instant)
    → OneJob db.jobs
    → In job db.jobs
    → (job.locked_by ==? some worker_id) ≡ false
    → (renew_lease job.id worker_id lease_seconds now db ≡ (false, db))
      × (mark_completed job.id worker_id db ≡ (false, db))
      × (mark_failed job.id worker_id error max_attempts now db ≡ (false, db))
unfolding renew_lease mark_completed
stale_worker_refused db job worker_id error lease_seconds max_attempts now one i other =
    let none_held = not_held db job worker_id one i other in
    (
      update_one-refused _ _ db (
          All-imp (λ row. is_held_by job.id worker_id row ≡ false) _ (λ row e. ground (arith, e))
            db.jobs none_held),
      update_one-refused _ _ db none_held,
      mark_failed-refused db job worker_id error max_attempts now one i other,
    )
