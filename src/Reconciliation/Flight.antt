-- ===== src/Reconciliation/Flight.antt =====
-- app/services/reconciliation.py: what polling does to a job in flight.
use linkplease_tech_assignme.Base.{
  ℕ, ◌≡◌, ap, ◌∙◌, true, false, String, Option, some, arith, All-update_where, first_where-All,
  not_none, ◌==◌, Bool-cases, Option-cases, inl, inr, some_eq, subst,
}
use linkplease_tech_assignme.Config.{Settings}
use linkplease_tech_assignme.Models.{Db, Time, DmJob}
use linkplease_tech_assignme.Models.Slots.{other_conflicts}
use linkplease_tech_assignme.Jobs.{job_by_id}
use linkplease_tech_assignme.Jobs.Flight.{AllAwait}
use linkplease_tech_assignme.Jobs.Outcomes.{apply_delivery_status, save_job}
use linkplease_tech_assignme.Jobs.Outcomes.Budget.{awaits_send}
use linkplease_tech_assignme.Jobs.Outcomes.Effects.{apply_delivery_status-Checked}
use linkplease_tech_assignme.Reconciliation.{is_accepted, apply_to, checked_to, apply_status}

accepted_no_flight :
    (flight : ℕ) (job : DmJob)
    → is_accepted job ≡ true
    → ((job.id == flight) ≡ true → awaits_send job.status ≡ true)
    → (job.id == flight) ≡ false
accepted_no_flight flight job a f = elim (Bool-cases (job.id == flight)) [
  | inl e ↦ absurd (ground (arith, f e))
  | inr e ↦ e
]

saved-AllAwait :
    (flight : ℕ) (job' : DmJob) (db : Db) {db' : Db}
    → (job'.id == flight) ≡ false
    → AllAwait flight db.jobs
    → save_job job' db ≡ some db'
    → AllAwait flight db'.jobs
unfolding save_job
saved-AllAwait flight job' db other a h = elim (Bool-cases (other_conflicts job' db.jobs)) [
  | inl e ↦ absurd (not_none (rw e at h))
  | inr e ↦
      subst (λ (d : Db). AllAwait flight d.jobs) (some_eq (rw e at h))
        (All-update_where _ (λ x. x.id == job'.id) (λ _. job') db.jobs (λ _ _ _ same. cc) a)
]

applied-AllAwait :
    (s : Settings) (draw id flight : ℕ) (status : Option String) (now : Time) (job : DmJob)
    (db : Db) {db' : Db}
    → is_accepted job ≡ true
    → job_by_id id db ≡ some job
    → AllAwait flight db.jobs
    → apply_to s draw status now job db ≡ some db'
    → AllAwait flight db'.jobs
unfolding apply_to
applied-AllAwait s draw id flight status now job db acc e a h =
    elim (Option-cases (apply_delivery_status s draw status now job)) [
      | inl f ↦ absurd (not_none (rw (f, apply_to) at h))
      | inr (job', f) ↦
          let kept = (apply_delivery_status-Checked s draw status now job f).same.same_id in
          let other = accepted_no_flight flight job acc (
            first_where-All (λ j. (j.id == flight) ≡ true → awaits_send j.status ≡ true)
              (λ (j : DmJob). j.id == id) db.jobs job a e) in
          saved-AllAwait flight job' db (ap (λ i. i == flight) kept ∙ other) a
            (rw (f, apply_to) at h)
    ]

checked_to-AllAwait :
    (s : Settings) (draw id flight : ℕ) (status : Option String) (now : Time) (job : DmJob)
    (db : Db) {db' : Db}
    → job_by_id id db ≡ some job
    → AllAwait flight db.jobs
    → checked_to s draw status now job db ≡ some db'
    → AllAwait flight db'.jobs
unfolding checked_to
checked_to-AllAwait s draw id flight status now job db e a h = elim (Bool-cases (is_accepted job)) [
  | inl acc ↦ applied-AllAwait s draw id flight status now job db acc e a (rw acc at h)
  | inr acc ↦ subst (λ (d : Db). AllAwait flight d.jobs) (some_eq (rw acc at h)) a
]

-- A delivery status leaves alone every job that waits for the reply to a send.
pub apply_status-AllAwait :
    (s : Settings) (draw id flight : ℕ) (status : Option String) (now : Time) (db : Db) {db' : Db}
    → AllAwait flight db.jobs
    → apply_status s draw id status now db ≡ some db'
    → AllAwait flight db'.jobs
unfolding apply_status
apply_status-AllAwait s draw id flight status now db a h = elim (Option-cases (job_by_id id db)) [
  | inl e ↦ subst (λ (d : Db). AllAwait flight d.jobs) (some_eq (rw (e, apply_status) at h)) a
  | inr (job, e) ↦
      checked_to-AllAwait s draw id flight status now job db e a (rw (e, apply_status) at h)
]
