-- ===== src/Workers/DmWorker/Later.antt =====
-- app/workers/dm_worker.py: what its transactions after the claim do to the table of jobs.
use linkplease_tech_assignme.Base.{
  ℕ, ◌≡◌, refl, String, Option, some, inl, inr, Bool-cases, Option-cases,
}
use linkplease_tech_assignme.Config.{Settings}
use linkplease_tech_assignme.Models.{Db, Time, JobStatus, job_status_eq}
use linkplease_tech_assignme.Pseudogram.{SendResult}
use linkplease_tech_assignme.Jobs.{job_by_id}
use linkplease_tech_assignme.Jobs.Table.{JobsValid}
use linkplease_tech_assignme.Jobs.Diagram.{Told, Released, apply_send_result-Leads}
use linkplease_tech_assignme.Jobs.Writes.{
  JobsWritten, nothing-JobsWritten, replaced-JobsWritten, Released-Leads, save_job-eq-some,
}
use linkplease_tech_assignme.Workers.DmWorker.{apply_result, release_job, release_claim}
use linkplease_tech_assignme.Workers.DmWorker.Release.{apply_result-saved}
use linkplease_tech_assignme.Workers.DmWorker.Sound.{Awaits}

module _ (Fresh : Option String → Type 0) where
  pub apply_result-JobsWritten :
      (s : Settings) (draw id : ℕ) (result : SendResult) (now : Time) (db : Db) {db' : Db}
      → JobsValid db
      → Awaits id db
      → apply_result s draw id result now db ≡ some db'
      → JobsWritten Told Fresh db db'
  apply_result-JobsWritten s draw id result now db {db'} v waits h =
      elim (apply_result-saved s draw id result now db h) [
        | inl (_, same) ↦ nothing-JobsWritten Told Fresh db db' same
        | inr (job, job', e, f, g) ↦
            replaced-JobsWritten Told Fresh id job job' db db' v e
              (apply_send_result-Leads s draw result now job (waits job e) f)
              (save_job-eq-some job' db g)
      ]

  pub release_claim-JobsWritten :
      (id : ℕ) (now : Time) (db : Db)
      → JobsValid db
      → JobsWritten Released Fresh db (release_claim id now db)
  unfolding release_claim release_job
  release_claim-JobsWritten id now db v = elim (Option-cases (job_by_id id db)) [
    | inl e ↦ nothing-JobsWritten Released Fresh db _ (rw (e, release_claim) refl)
    | inr (job, e) ↦ elim (Bool-cases (job_status_eq job.status JobStatus.sending)) [
      | inl q ↦
          let job' = record job { status = JobStatus.queued; updated_at = now } in
          replaced-JobsWritten Released Fresh id job job' db (release_claim id now db) v e
            (Released-Leads now job q) (rw (e, release_claim) (rw q refl))
      | inr q ↦
          nothing-JobsWritten Released Fresh db (release_claim id now db)
            (rw (e, release_claim) (rw q refl))
    ]
  ]
