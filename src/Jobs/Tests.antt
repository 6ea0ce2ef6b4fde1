-- ===== src/Jobs/Tests.antt =====
-- The theorems on the job queue, applied to a queue of three jobs.
use rfid_inventory_replenish.Prelude.{
  ◌≤◌, ◌≡◌, refl, inl, inr, Bool, true, false, none, some, [], ◌∷◌, arith, All, In, length, find,
  select, any, sort_by, insert_by, update_where,
}
use rfid_inventory_replenish.Domain.{Uuid}
use rfid_inventory_replenish.Jobs.{
  JobKind, JobStatus, TenantStatus, DurableJob, JobDb, Claim, is_job, is_due, claim_jobs,
  renew_lease, mark_completed, mark_failed, in_scope, exhausted_jobs, claimable_jobs, terminalized,
  leased,
}
use rfid_inventory_replenish.Jobs.Rows.{OneJob}
use rfid_inventory_replenish.Jobs.Laws.{claim, run, claim_jobs-held, stale_worker_refused}
use rfid_inventory_replenish.Jobs.Attempts.{IsSound, run-IsSound}
use rfid_inventory_replenish.Jobs.Claims.{IsClaimed, claim_jobs-IsClaimed, mark_failed-due}

abbrev waiting : DurableJob
waiting = record {
  id = 1;
  tenant_id = 5;
  kind = JobKind.catalog_import;
  payload = 0;
  status = JobStatus.pending;
  attempts = 0;
  available_at = 10;
  lease_expires_at = none;
  locked_by = none;
  last_error = none;
  created_at = 10;
}

abbrev held : DurableJob
held = record waiting {
  id = 2;
  status = JobStatus.processing;
  attempts = 1;
  lease_expires_at = some 1000;
  locked_by = some 44;
  created_at = 5;
}

abbrev finished : DurableJob
finished = record waiting { id = 3; status = JobStatus.completed; attempts = 1; created_at = 1 }

abbrev queue : JobDb
queue = record {
  jobs = waiting ∷ held ∷ finished ∷ [];
  tenants = (record { id = 5; status = TenantStatus.active }) ∷ [];
}

abbrev ask : Claim
ask = record {
  worker_id = 45;
  limit = 10;
  lease_seconds = 60;
  max_attempts = 3;
  tenant_id = none;
  kinds = some (JobKind.catalog_import ∷ []);
}

abbrev nobody : Uuid → Bool
nobody id = false

abbrev id_of : DurableJob → Uuid
id_of job = job.id

queue-OneJob : OneJob queue.jobs
queue-OneJob a b (inl e) (inl f) same = cc
queue-OneJob a b (inl e) (inr (inl f)) same = absurd (ground arith)
queue-OneJob a b (inl e) (inr (inr (inl f))) same = absurd (ground arith)
queue-OneJob a b (inr (inl e)) (inl f) same = absurd (ground arith)
queue-OneJob a b (inr (inl e)) (inr (inl f)) same = cc
queue-OneJob a b (inr (inl e)) (inr (inr (inl f))) same = absurd (ground arith)
queue-OneJob a b (inr (inr (inl e))) (inl f) same = absurd (ground arith)
queue-OneJob a b (inr (inr (inl e))) (inr (inl f)) same = absurd (ground arith)
queue-OneJob a b (inr (inr (inl e))) (inr (inr (inl f))) same = cc
queue-OneJob a b (inl e) (inr (inr (inr i))) same = elim i [ ]
queue-OneJob a b (inr (inl e)) (inr (inr (inr i))) same = elim i [ ]
queue-OneJob a b (inr (inr (inl e))) (inr (inr (inr i))) same = elim i [ ]
queue-OneJob a b (inr (inr (inr i))) j same = elim i [ ]

-- The claim takes the waiting job and no other.
takes : (claim_jobs ask 100 nobody nobody queue).0 ≡ leased ask 100 waiting ∷ []
unfolding claim_jobs exhausted_jobs claimable_jobs in_scope is_due terminalized leased select
    sort_by insert_by any update_where
takes = refl

claim_jobs-held_example : In held (claim_jobs ask 100 nobody nobody queue).1.jobs
claim_jobs-held_example =
    claim_jobs-held ask 100 nobody nobody queue held queue-OneJob (inr (inl refl)) refl refl

stale_worker_refused_example :
    (renew_lease held.id 45 60 100 queue ≡ (false, queue))
    × (mark_completed held.id 45 queue ≡ (false, queue))
    × (mark_failed held.id 45 7 3 100 queue ≡ (false, queue))
stale_worker_refused_example =
    stale_worker_refused queue held 45 7 60 3 100 queue-OneJob (inr (inl refl)) refl

queue-IsSound : All (IsSound 3) queue.jobs
queue-IsSound = (
  record { owner = refl; lease = refl; tried = omega arith },
  (
    record { owner = refl; lease = refl; tried = omega arith },
    (record { owner = refl; lease = refl; tried = omega arith }, tt),
  ),
)

run-IsSound_example : All (IsSound 3) (run (claim ask 100 nobody nobody) queue).jobs
run-IsSound_example =
    run-IsSound 3 (claim ask 100 nobody nobody) queue (omega arith) queue-OneJob queue-IsSound

claim_jobs-IsClaimed_example :
    (length (claim_jobs ask 100 nobody nobody queue).0 ≤ 10)
    × All (IsClaimed ask 100) (claim_jobs ask 100 nobody nobody queue).0
claim_jobs-IsClaimed_example = claim_jobs-IsClaimed ask 100 nobody nobody queue

finds_held : find (is_job 2) queue.jobs ≡ some held
unfolding find
finds_held = refl

mark_failed-due_example :
    (job' : DurableJob) × (find (is_job 2) (mark_failed 2 44 7 3 100 queue).1.jobs ≡ some job')
    × (is_due 300000100 job' ≡ true)
    × (job'.attempts ≡ 1)
mark_failed-due_example =
    mark_failed-due 2 44 7 3 100 300000100 queue held finds_held refl refl (omega arith)
      (omega arith)
