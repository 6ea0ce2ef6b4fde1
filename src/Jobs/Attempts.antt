-- ===== src/Jobs/Attempts.antt =====
-- The leases and the attempts of the jobs.
use rfid_inventory_replenish.Prelude.{
  ℕ, ◌≤◌, ◌≡◌, refl, inl, inr, ltb, Bool, true, not, ◌||◌, some, arith, All, All-zip, All-of_In, In,
  find, count_where, update_where, All-update_where, ◌==◌, ◌==?◌, Bool-cases, Option-cases, is_some,
}
use rfid_inventory_replenish.Domain.{Uuid, Text, Instant}
use rfid_inventory_replenish.Jobs.{
  DurableJob, JobDb, Claim, is_processing, is_job, enqueue_job, exhausted_jobs, terminalized,
  claimable_jobs, leased, is_among, claim_jobs, is_held_by, update_one, renew_lease, mark_completed,
  failed_job, mark_failed,
}
use rfid_inventory_replenish.Jobs.Rows.{OneJob}
use rfid_inventory_replenish.Jobs.Laws.{
  Op, enqueue, claim, renew, complete, fail, run, claimable-due, terminalized-OneJob,
}

-- A job has an owner and a lease while it is processing and at no other time, and it has been tried
-- at most so often.
pub record IsSound (bound : ℕ) (job : DurableJob) : Type 0 where
  pub owner : is_some job.locked_by ≡ is_processing job.status
  pub lease : is_some job.lease_expires_at ≡ is_processing job.status
  pub tried : job.attempts ≤ bound

-- No claim lets a job be tried more often than the bound.
abbrev pub Allows : ℕ → Op → Type 0
Allows bound (claim c now skipped skipped') = c.max_attempts ≤ bound
Allows bound _ = Unit

terminalized-IsSound :
    (bound : ℕ) (job : DurableJob) → IsSound bound job → IsSound bound (terminalized job)
unfolding terminalized
terminalized-IsSound bound job h = record { owner = refl; lease = refl; tried = h.tried }

leased-IsSound :
    (bound : ℕ) (c : Claim) (now : Instant) (job : DurableJob)
    → c.max_attempts ≤ bound
    → ltb job.attempts c.max_attempts ≡ true
    → IsSound bound (leased c now job)
unfolding leased
leased-IsSound bound c now job allows few = record {
  owner = refl;
  lease = refl;
  tried = ground arith;
}

failed_job-IsSound :
    (bound : ℕ) (error : Text) (max_attempts : ℕ) (now : Instant) (job : DurableJob)
    → IsSound bound job
    → IsSound bound (failed_job error max_attempts now job)
unfolding failed_job
failed_job-IsSound bound error max_attempts now job h = record {
  owner = ground arith;
  lease = ground arith;
  tried = ground (arith, h.tried);
}

update_one-IsSound :
    (bound : ℕ) (p : DurableJob → Bool) (f : DurableJob → DurableJob) (db : JobDb)
    → ((job : DurableJob) → p job ≡ true → IsSound bound job → IsSound bound (f job))
    → All (IsSound bound) db.jobs
    → All (IsSound bound) (update_one p f db).1.jobs
unfolding update_one
update_one-IsSound bound p f db keeps h = elim (Bool-cases (count_where p db.jobs == 1)) [
  | inl e ↦
      rw (e, update_one)
        (All-update_where p (IsSound bound) (IsSound bound) f (λ a s t. keeps a t s) (λ a s _. s)
          db.jobs h)
  | inr e ↦ rw (e, update_one) h
]

claim_jobs-IsSound :
    (bound : ℕ) (c : Claim) (now : Instant) (skipped skipped' : Uuid → Bool) (db : JobDb)
    → c.max_attempts ≤ bound
    → OneJob db.jobs
    → All (IsSound bound) db.jobs
    → All (IsSound bound) (claim_jobs c now skipped skipped' db).1.jobs
unfolding claim_jobs
claim_jobs-IsSound bound c now skipped skipped' db allows one h =
    let rows = exhausted_jobs c now skipped db.jobs in
    let kept = update_where (is_among rows) terminalized db.jobs in
    let kept_sound : All (IsSound bound) kept =
      All-update_where (is_among rows) (IsSound bound) (IsSound bound) terminalized
        (λ a s _. terminalized-IsSound bound a s) (λ a s _. s) db.jobs h in
    let rows' = claimable_jobs c now skipped' db.tenants kept in
    All-update_where (is_among rows') (λ a. IsSound bound a × In a kept) (IsSound bound)
      (leased c now)
      (λ a s e. leased-IsSound bound c now a allows (
        let due =
          claimable-due c now skipped' db kept a (terminalized-OneJob c now skipped db.jobs one) s.1
            e in
        ground (arith, due)))
      (λ a s _. s.0) kept
      (All-zip (IsSound bound) (λ a. In a kept) kept kept_sound
        (All-of_In (λ a. In a kept) kept (λ a j. j)))

mark_failed-IsSound :
    (bound : ℕ) (id : Uuid) (worker_id error : Text) (max_attempts : ℕ) (now : Instant) (db : JobDb)
    → All (IsSound bound) db.jobs
    → All (IsSound bound) (mark_failed id worker_id error max_attempts now db).1.jobs
unfolding mark_failed
mark_failed-IsSound bound id worker_id error max_attempts now db h =
    elim (Option-cases (find (is_job id) db.jobs)) [
      | inl e ↦ rw (e, mark_failed) h
      | inr (row, e) ↦
          elim (Bool-cases
            (not (is_processing row.status) || not (row.locked_by ==? some worker_id))) [
              | inl refuses ↦ rw (e, refuses, mark_failed) h
              | inr fails ↦
                  rw (e, fails, mark_failed)
                    (All-update_where (is_job id) (IsSound bound) (IsSound bound)
                      (failed_job error max_attempts now)
                      (λ a s _. failed_job-IsSound bound error max_attempts now a s) (λ a s _. s)
                      db.jobs h)
            ]
    ]

-- Every operation keeps each job with an owner and a lease exactly while it is processing, and tried
-- at most as often as the bound, if the claims allow no more attempts than it and the rows of the
-- queue have different ids.
pub run-IsSound :
    (bound : ℕ) (op : Op) (db : JobDb)
    → Allows bound op
    → OneJob db.jobs
    → All (IsSound bound) db.jobs
    → All (IsSound bound) (run op db).jobs
unfolding run renew_lease mark_completed enqueue_job is_held_by
run-IsSound bound (enqueue id tenant_id kind payload available_at now) db a one h =
    (record { owner = refl; lease = refl; tried = omega arith }, h)
run-IsSound bound (claim c now skipped skipped') db a one h =
    claim_jobs-IsSound bound c now skipped skipped' db a one h
run-IsSound bound (renew id worker_id lease_seconds now) db a one h =
    update_one-IsSound bound _ _ db
      (λ job e s. record { owner = s.owner; lease = ground (arith, s.lease, e); tried = s.tried }) h
run-IsSound bound (complete id worker_id) db a one h =
    update_one-IsSound bound _ _ db
      (λ job e s. record { owner = refl; lease = refl; tried = s.tried }) h
run-IsSound bound (fail id worker_id error max_attempts now) db a one h =
    mark_failed-IsSound bound id worker_id error max_attempts now db h
