-- ===== src/Jobs/Requeue.antt =====
-- app/services/jobs.py: a job that is `sending` goes back into the queue, and the slot that it
-- holds.
use linkplease_tech_assignme.Base.{
  ℕ, ◌≡◌, refl, Bool, true, false, some, List, [], ◌∷◌, arith, ◌<◌, first_where, first_where-All,
  any_where, ◌==◌, Bool-cases, inl, inr, some_eq, not_none, subst,
}
use linkplease_tech_assignme.Config.{Settings}
use linkplease_tech_assignme.Models.{Db, Time, DmJob, JobStatus, job_status_eq, conflicts}
use linkplease_tech_assignme.Models.Slots.{SlotsUnique, replace, other_conflicts, conflicts_comm}
use linkplease_tech_assignme.Jobs.{job_by_id}
use linkplease_tech_assignme.Jobs.Outcomes.{save_job}
use linkplease_tech_assignme.Jobs.Outcomes.Budget.{IsWithinBudget, awaits_send, waiting_budget}
use linkplease_tech_assignme.Jobs.Sound.{IsSound, save_job-IsSound}

abbrev requeued : Time → DmJob → DmJob
requeued now job = record job { status = JobStatus.queued; updated_at = now }

conflicts-requeued :
    (k job : DmJob) (now : Time)
    → job_status_eq job.status JobStatus.sending ≡ true
    → conflicts k (requeued now job) ≡ conflicts k job
unfolding conflicts
conflicts-requeued k job now h = ground arith

no_conflict_found :
    (k job : DmJob) (p : DmJob → Bool) (js : List DmJob)
    → any_where (conflicts k) js ≡ false
    → first_where p js ≡ some job
    → conflicts k job ≡ false
no_conflict_found k job p [] h e = absurd (not_none e)
no_conflict_found k job p (j ∷ js) h e = elim (Bool-cases (p j)) [
  | inl t ↦
      let same : j ≡ job = some_eq (rw t at e) in
      subst (λ x. conflicts k x ≡ false) same (ground arith)
  | inr t ↦ no_conflict_found k job p js (ground arith) (rw t at e)
]

others_of_head :
    (k : DmJob) (js : List DmJob)
    → any_where (conflicts k) js ≡ false
    → other_conflicts k js ≡ false
others_of_head k [] h = refl
others_of_head k (j ∷ js) h = ground (arith, conflicts_comm j k, others_of_head k js)

-- A row of a valid table conflicts with no other row.
found_alone :
    (id : ℕ) (job : DmJob) (js : List DmJob)
    → SlotsUnique js
    → first_where (λ (j : DmJob). j.id == id) js ≡ some job
    → other_conflicts job js ≡ false
found_alone id job [] u e = absurd (not_none e)
found_alone id job (j ∷ js) u e = elim (Bool-cases (j.id == id)) [
  | inl t ↦
      subst (λ x. other_conflicts x (j ∷ js) ≡ false) (some_eq (rw t at e))
        (ground (arith, others_of_head j js u.0))
  | inr t ↦ ground (
    arith,
    no_conflict_found j job (λ (x : DmJob). x.id == id) js u.0 (rw t at e),
    found_alone id job js u.1 (rw t at e),
  )
]

others-requeued :
    (job : DmJob) (now : Time) (js : List DmJob)
    → job_status_eq job.status JobStatus.sending ≡ true
    → other_conflicts (requeued now job) js ≡ other_conflicts job js
others-requeued job now [] h = refl
others-requeued job now (j ∷ js) h =
    ground (arith, conflicts-requeued j job now h, others-requeued job now js h)

save-requeued :
    (id : ℕ) (job : DmJob) (now : Time) (db : Db)
    → SlotsUnique db.jobs
    → job_by_id id db ≡ some job
    → job_status_eq job.status JobStatus.sending ≡ true
    → save_job (requeued now job) db
      ≡ some (record db { jobs = replace (requeued now job) db.jobs })
unfolding save_job
save-requeued id job now db u e h =
    rw (others-requeued job now db.jobs h, found_alone id job db.jobs u e)

sending-awaits : (t : JobStatus) → job_status_eq t JobStatus.sending ≡ true → awaits_send t ≡ true
sending-awaits t h = ground arith

pub release-IsSound :
    (s : Settings) (id : ℕ) (job : DmJob) (now : Time) (db : Db)
    → job_by_id id db ≡ some job
    → job_status_eq job.status JobStatus.sending ≡ true
    → IsSound s db
    → IsSound s (record db { jobs = replace (requeued now job) db.jobs })
release-IsSound s id job now db e h v =
    save_job-IsSound s (requeued now job) db
      (first_where-All (λ j. j.id < db.next_job_id) (λ (j : DmJob). j.id == id) db.jobs job
        v.table.below e)
      (waiting_budget s job job.status (sending-awaits job.status h)
        (first_where-All (IsWithinBudget s) (λ (j : DmJob). j.id == id) db.jobs job v.budgets e))
      v (save-requeued id job now db v.table.slots e h)
