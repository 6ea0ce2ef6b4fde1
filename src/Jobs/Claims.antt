-- ===== src/Jobs/Claims.antt =====
-- What a claim returns, and when a failed job is tried again.
use rfid_inventory_replenish.Prelude.{
  ℕ, ◌+◌, ◌≤◌, ◌<◌, ◌≡◌, refl, ◌∙◌, ltb, Bool, true, false, not, ◌&&◌, ◌||◌, some, List, [], ◌∷◌,
  map, arith, All, All-imp, length, length-map, find, find-some, update_where, find-update_keeps,
  ◌==?◌,
}
use rfid_inventory_replenish.Domain.{Uuid, Text, Instant, seconds}
use rfid_inventory_replenish.Jobs.{
  DurableJob, JobDb, Claim, is_processing, is_job, is_due, in_scope, has_active_tenant,
  by_created_at, exhausted_jobs, terminalized, claimable_jobs, leased, is_among, claim_jobs,
  failed_job, mark_failed, retry_delay,
}
use rfid_inventory_replenish.Jobs.Rows.{Chosen, select-Chosen, length-take-le}

-- A job that a claim returns: leased to the worker, of a tenant and a kind that the claim asks for,
-- and tried no more often than the claim allows.
pub record IsClaimed (c : Claim) (now : Instant) (job : DurableJob) : Type 0 where
  pub processing : is_processing job.status ≡ true
  pub owner : job.locked_by ≡ some c.worker_id
  pub lease : job.lease_expires_at ≡ some (now + seconds c.lease_seconds)
  pub wanted : in_scope c job ≡ true
  pub tried : (0 < job.attempts) × (job.attempts ≤ c.max_attempts)

abbrev claims : Claim → Instant → JobDb → (Uuid → Bool) → DurableJob → Bool
claims c now db skipped row =
    in_scope c row
    && is_due now row
    && ltb row.attempts c.max_attempts
    && has_active_tenant db.tenants row
    && not (skipped row.id)

leased-IsClaimed :
    (c : Claim) (now : Instant) (db : JobDb) (skipped : Uuid → Bool) (job : DurableJob)
    → claims c now db skipped job ≡ true
    → IsClaimed c now (leased c now job)
unfolding leased in_scope
leased-IsClaimed c now db skipped job chosen = record {
  processing = refl;
  owner = refl;
  lease = refl;
  wanted = ground (arith, chosen);
  tried = (omega arith, ground (arith, chosen));
}

All-map {ℓ κ} :
    {A : Type 0} {B : Type ℓ} (P : B → Type κ) (f : A → B) (xs : List A)
    → All (λ a. P (f a)) xs
    → All P (map f xs)
All-map P f [] h = tt
All-map P f (x ∷ xs) h = (h.0, All-map P f xs h.1)

-- A claim returns at most as many jobs as its limit. Each is leased to the worker from now on, is of
-- a tenant and kind that the claim asks for, and has been tried at most as often as it allows.
pub claim_jobs-IsClaimed :
    (c : Claim) (now : Instant) (skipped skipped' : Uuid → Bool) (db : JobDb)
    → (length (claim_jobs c now skipped skipped' db).0 ≤ c.limit)
      × All (IsClaimed c now) (claim_jobs c now skipped skipped' db).0
unfolding claim_jobs claimable_jobs
claim_jobs-IsClaimed c now skipped skipped' db =
    let kept =
      update_where (is_among (exhausted_jobs c now skipped db.jobs)) terminalized db.jobs in
    let rows = claimable_jobs c now skipped' db.tenants kept in
    let few : length rows ≤ c.limit = length-take-le c.limit _ in
    (
      omega (arith, length-map (leased c now) rows, few),
      All-map (IsClaimed c now) (leased c now) rows (
          All-imp (Chosen (claims c now db skipped') kept)
            (λ job. IsClaimed c now (leased c now job))
            (λ job h. leased-IsClaimed c now db skipped' job h.1) rows
            (select-Chosen by_created_at (claims c now db skipped') c.limit kept)),
    )

retry_delay-le : (attempts : ℕ) → retry_delay attempts ≤ 300
unfolding retry_delay
retry_delay-le attempts = ground arith

failed_job-due :
    (error : Text) (max_attempts : ℕ) (now at : Instant) (job : DurableJob)
    → job.attempts < max_attempts
    → now + seconds 300 ≤ at
    → is_due at (failed_job error max_attempts now job) ≡ true
unfolding failed_job is_due
failed_job-due error max_attempts now at job few later = ground (arith, retry_delay-le job.attempts)

-- A job that its worker fails before its attempts are used up is due again five minutes later at
-- most, with as many attempts counted as before, so that a claim can take it.
pub mark_failed-due :
    (id : Uuid) (worker_id error : Text) (max_attempts : ℕ) (now at : Instant) (db : JobDb)
    (job : DurableJob)
    → find (is_job id) db.jobs ≡ some job
    → is_processing job.status ≡ true
    → job.locked_by ≡ some worker_id
    → job.attempts < max_attempts
    → now + seconds 300 ≤ at
    → (job' : DurableJob) × (find
          (is_job id)
          (mark_failed id worker_id error max_attempts now db).1.jobs
        ≡ some job')
      × (is_due at job' ≡ true)
      × (job'.attempts ≡ job.attempts)
unfolding mark_failed
mark_failed-due id worker_id error max_attempts now at db job found held mine few later =
    let f = failed_job error max_attempts now in
    let keeps : (x : DurableJob) → is_job id (f x) ≡ is_job id x =
      λ x. unfold failed_job in ground arith in
    let own : (not (is_processing job.status) || not (job.locked_by ==? some worker_id)) ≡ false =
      ground (arith, held, mine) in
    let there = find-some (is_job id) db.jobs job found in
    (
      f job,
      rw (found, own, mark_failed)
          (find-update_keeps {A = DurableJob} (is_job id) (is_job id) f keeps db.jobs job found
            ∙ rw there refl),
      failed_job-due error max_attempts now at job few later,
      unfold failed_job in ground arith,
    )
