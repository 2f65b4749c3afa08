-- ===== src/Reconciliation/Later.antt =====
-- app/services/reconciliation.py: what polling does to the table of jobs.
use linkplease_tech_assignme.Base.{
  ℕ, ◌≡◌, refl, sym, true, String, Option, some, inl, inr, Bool-cases, Option-cases, not_none,
  some_eq,
}
use linkplease_tech_assignme.Config.{Settings}
use linkplease_tech_assignme.Models.{Db, Time, DmJob, JobStatus, job_status_eq}
use linkplease_tech_assignme.Jobs.{job_by_id}
use linkplease_tech_assignme.Jobs.Outcomes.{apply_delivery_status}
use linkplease_tech_assignme.Jobs.Table.{JobsValid}
use linkplease_tech_assignme.Jobs.Diagram.{Polled, apply_delivery_status-Leads}
use linkplease_tech_assignme.Jobs.Writes.{
  JobsWritten, nothing-JobsWritten, replaced-JobsWritten, save_job-eq-some,
}
use linkplease_tech_assignme.Reconciliation.{is_accepted, apply_to, checked_to, apply_status}

accepted_status :
    (s : JobStatus) → job_status_eq s JobStatus.accepted ≡ true → s ≡ JobStatus.accepted
accepted_status JobStatus.queued h = absurd (cc)
accepted_status JobStatus.sending h = absurd (cc)
accepted_status JobStatus.accepted h = refl
accepted_status JobStatus.delivered h = absurd (cc)
accepted_status JobStatus.retry_wait h = absurd (cc)
accepted_status JobStatus.failed h = absurd (cc)
accepted_status JobStatus.cancelled h = absurd (cc)

module _ (Fresh : Option String → Type 0) (s : Settings) (draw id : ℕ) (status : Option String)
    (now : Time) (db : Db) {db' : Db} (v : JobsValid db) where
  applied-JobsWritten :
      (job : DmJob)
      → is_accepted job ≡ true
      → job_by_id id db ≡ some job
      → apply_to s draw status now job db ≡ some db'
      → JobsWritten Polled Fresh db db'
  unfolding apply_to
  applied-JobsWritten job acc e h =
      elim (Option-cases (apply_delivery_status s draw status now job)) [
        | inl f ↦ absurd (not_none (rw (f, apply_to) at h))
        | inr (job', f) ↦
            replaced-JobsWritten Polled Fresh id job job' db db' v e
              (apply_delivery_status-Leads s draw status now job (accepted_status job.status acc) f)
              (save_job-eq-some job' db (rw (f, apply_to) at h))
      ]

  checked-JobsWritten :
      (job : DmJob)
      → job_by_id id db ≡ some job
      → checked_to s draw status now job db ≡ some db'
      → JobsWritten Polled Fresh db db'
  unfolding checked_to
  checked-JobsWritten job e h = elim (Bool-cases (is_accepted job)) [
    | inl acc ↦ applied-JobsWritten job acc e (rw acc at h)
    | inr acc ↦ nothing-JobsWritten Polled Fresh db db' (sym (some_eq (rw acc at h)))
  ]

  pub apply_status-JobsWritten :
      apply_status s draw id status now db ≡ some db' → JobsWritten Polled Fresh db db'
  unfolding apply_status
  apply_status-JobsWritten h = elim (Option-cases (job_by_id id db)) [
    | inl e ↦ nothing-JobsWritten Polled Fresh db db' (sym (some_eq (rw (e, apply_status) at h)))
    | inr (job, e) ↦ checked-JobsWritten job e (rw (e, apply_status) at h)
  ]
