-- ===== src/Tests/Queue.antt =====
-- Runs of the queue of DM jobs.
use linkplease_tech_assignme.Base.{
  ℕ, str_eq, count_where, ◌<◌, ◌≤◌, ◌≡◌, ◌≢◌, refl, none, some, [], ◌∷◌, arith,
}
use linkplease_tech_assignme.Config.{default_settings}
use linkplease_tech_assignme.Models.{Db, DmJob, JobStatus, conflicts}
use linkplease_tech_assignme.Tests.{queued_job, waiting_job, accepted_job, jobs_db, unavailable}
use linkplease_tech_assignme.Jobs.{claim_first, cancel_jobs_for_comment, backoff_delay}
use linkplease_tech_assignme.Jobs.Claim.{claims-exclusive}
use linkplease_tech_assignme.Jobs.Cancel.{may_send, Cancels, cancel_jobs-Cancels}
use linkplease_tech_assignme.Jobs.Backoff.{doubled, IsDelay, backoff_delay-IsDelay}
use linkplease_tech_assignme.Jobs.Outcomes.{apply_send_result, apply_delivery_status, save_job}
use linkplease_tech_assignme.Jobs.Outcomes.Budget.{
  IsWithinBudget, apply_send_result-IsWithinBudget, apply_delivery_status-IsWithinBudget,
}
use linkplease_tech_assignme.Jobs.Outcomes.Effects.{
  Replied, Checked, apply_send_result-Replied, apply_delivery_status-Checked,
}

-- A 503 for a job that has failed once: the base of the second delay is two seconds, and the lowest
-- draw takes a quarter of that away.
abbrev failed_twice : DmJob
failed_twice = record waiting_job {
  status = JobStatus.retry_wait;
  attempts = 2;
  transient_failures = 2;
  next_retry_at = some 1500020;
  last_error = some "server_error_503";
  updated_at = 20;
}

reply_run :
    apply_send_result default_settings 0 unavailable 20
      (record waiting_job { status = JobStatus.sending })
    ≡ some failed_twice
unfolding apply_send_result backoff_delay
reply_run = refl

-- The delivery of a job failed: its second send cycle starts after a second at most a quarter short.
abbrev resent : DmJob
resent = record accepted_job {
  status = JobStatus.retry_wait;
  attempts = 2;
  send_cycle = 1;
  dm_id = none;
  next_retry_at = some 750020;
  last_error = some "delivery_failed";
  last_status_check_at = some 20;
  updated_at = 20;
}

delivery_run :
    apply_delivery_status default_settings 0 (some "failed") 20 accepted_job ≡ some resent
unfolding apply_delivery_status backoff_delay str_eq
delivery_run = refl

abbrev saved_db : Db
saved_db = record jobs_db { jobs = failed_twice ∷ accepted_job ∷ [] }

save_run : save_job failed_twice jobs_db ≡ some saved_db
unfolding save_job conflicts str_eq
save_run = refl

-- Two workers that both found the jobs 1 and 2 claimable.
abbrev contested_db : Db
contested_db = record jobs_db { jobs = queued_job ∷ waiting_job ∷ [] }

first_claim :
    (claim_first (1 ∷ 2 ∷ []) 11 contested_db).0
    ≡ some (record queued_job { status = JobStatus.sending; updated_at = 11 })
unfolding claim_first
first_claim = refl

second_claim :
    (claim_first (1 ∷ 2 ∷ []) 12 (claim_first (1 ∷ 2 ∷ []) 11 contested_db).1).0
    ≡ some (record waiting_job { status = JobStatus.sending; updated_at = 12 })
unfolding claim_first
second_claim = refl

claims-exclusive_example : waiting_job.id ≢ queued_job.id
claims-exclusive_example =
    claims-exclusive (1 ∷ 2 ∷ []) (1 ∷ 2 ∷ []) 11 12 contested_db
      (record queued_job { status = JobStatus.sending; updated_at = 11 })
      (record waiting_job { status = JobStatus.sending; updated_at = 12 }) first_claim second_claim

cancel_jobs-Cancels_example :
    let (n, db') = cancel_jobs_for_comment "c1" 9 jobs_db in
    Cancels "c1" 9 jobs_db.jobs db'.jobs × (n ≡ count_where (may_send "c1") jobs_db.jobs)
cancel_jobs-Cancels_example = cancel_jobs-Cancels "c1" 9 jobs_db refl

apply_send_result-IsWithinBudget_example : IsWithinBudget default_settings failed_twice
apply_send_result-IsWithinBudget_example =
    apply_send_result-IsWithinBudget default_settings 0 unavailable 20
      (record waiting_job { status = JobStatus.sending }) refl (ground arith) reply_run

apply_delivery_status-IsWithinBudget_example : IsWithinBudget default_settings resent
apply_delivery_status-IsWithinBudget_example =
    apply_delivery_status-IsWithinBudget default_settings 0 (some "failed") 20 accepted_job
      (omega arith) refl (ground arith) delivery_run

apply_send_result-Replied_example :
    Replied (record waiting_job { status = JobStatus.sending }) failed_twice
apply_send_result-Replied_example =
    apply_send_result-Replied default_settings 0 unavailable 20
      (record waiting_job { status = JobStatus.sending }) reply_run

apply_delivery_status-Checked_example : Checked (some "failed") accepted_job resent
apply_delivery_status-Checked_example =
    apply_delivery_status-Checked default_settings 0 (some "failed") 20 accepted_job delivery_run

backoff_delay-IsDelay_example :
    (2 < 1024
      → (d : ℕ) × (backoff_delay 3 default_settings 1000 ≡ some d)
        × IsDelay default_settings (doubled default_settings 2) d)
    × (1024 ≤ 2 → backoff_delay 3 default_settings 1000 ≡ none)
backoff_delay-IsDelay_example = backoff_delay-IsDelay default_settings 2 1000 (omega arith)
