-- ===== src/Reconciliation/Laws.antt =====
-- app/services/reconciliation.py: polling, and the invariant of the jobs.
use linkplease_tech_assignme.Base.{
  ℕ, ◌<◌, ◌≡◌, refl, true, String, Option, none, some, List, [], ◌∷◌, first_where-All, not_none,
  ◌==◌, Bool-cases, Option-cases, inl, inr, some_eq, subst,
}
use linkplease_tech_assignme.Config.{Settings}
use linkplease_tech_assignme.Models.{Db, Time, DmJob, JobStatus, job_status_eq}
use linkplease_tech_assignme.Pseudogram.{StatusOutcome, StatusResult, get_dm_status}
use linkplease_tech_assignme.Jobs.{job_by_id}
use linkplease_tech_assignme.Jobs.Outcomes.{apply_delivery_status}
use linkplease_tech_assignme.Jobs.Outcomes.Budget.{
  IsWithinBudget, apply_delivery_status-IsWithinBudget,
}
use linkplease_tech_assignme.Jobs.Outcomes.Effects.{apply_delivery_status-Checked}
use linkplease_tech_assignme.Jobs.Sound.{HasBudgets, IsSound, save_job-IsSound}
use linkplease_tech_assignme.Reconciliation.{
  is_accepted, load_pending, apply_to, checked_to, apply_status, Polled, checked, raised, db_after,
  one_more, Surroundings, store_status, go_on, poll_all, run_once,
}

status_accepted :
    (t : JobStatus) → job_status_eq t JobStatus.accepted ≡ true → t ≡ JobStatus.accepted
status_accepted JobStatus.accepted h = refl
status_accepted JobStatus.queued h = cc
status_accepted JobStatus.sending h = cc
status_accepted JobStatus.delivered h = cc
status_accepted JobStatus.retry_wait h = cc
status_accepted JobStatus.failed h = cc
status_accepted JobStatus.cancelled h = cc

module _ (s : Settings) (b : HasBudgets s) where
  apply_to-IsSound :
      (draw id : ℕ) (status : Option String) (now : Time) (job : DmJob) (db : Db) {db' : Db}
      → is_accepted job ≡ true
      → job_by_id id db ≡ some job
      → IsSound s db
      → apply_to s draw status now job db ≡ some db'
      → IsSound s db'
  unfolding apply_to
  apply_to-IsSound draw id status now job db a e v h =
      elim (Option-cases (apply_delivery_status s draw status now job)) [
        | inl f ↦ absurd (not_none (rw (f, apply_to) at h))
        | inr (job', f) ↦
            let kept = (apply_delivery_status-Checked s draw status now job f).same.same_id in
            save_job-IsSound s job' db
              (rw kept (
                first_where-All (λ j. j.id < db.next_job_id) (λ (j : DmJob). j.id == id) db.jobs job
                  v.table.below e))
              (apply_delivery_status-IsWithinBudget s draw status now job b.sends
                (status_accepted job.status a)
                (first_where-All (IsWithinBudget s) (λ (j : DmJob). j.id == id) db.jobs job
                  v.budgets e)
                f)
              v (rw (f, apply_to) at h)
      ]

  checked_to-IsSound :
      (draw id : ℕ) (status : Option String) (now : Time) (job : DmJob) (db : Db) {db' : Db}
      → job_by_id id db ≡ some job
      → IsSound s db
      → checked_to s draw status now job db ≡ some db'
      → IsSound s db'
  unfolding checked_to
  checked_to-IsSound draw id status now job db e v h = elim (Bool-cases (is_accepted job)) [
    | inl a ↦ apply_to-IsSound draw id status now job db a e v (rw a at h)
    | inr a ↦ subst (IsSound s) (some_eq (rw a at h)) v
  ]

  pub apply_status-IsSound :
      (draw id : ℕ) (status : Option String) (now : Time) (db : Db) {db' : Db}
      → IsSound s db
      → apply_status s draw id status now db ≡ some db'
      → IsSound s db'
  unfolding apply_status
  apply_status-IsSound draw id status now db v h = elim (Option-cases (job_by_id id db)) [
    | inl e ↦ subst (IsSound s) (some_eq (rw (e, apply_status) at h)) v
    | inr (job, e) ↦ checked_to-IsSound draw id status now job db e v (rw (e, apply_status) at h)
  ]

  module _ (w : Surroundings) where
    store-IsSound :
        (id : ℕ) (result : StatusResult) (o : StatusOutcome) (db : Db) {db' : Db}
        → result.outcome ≡ o
        → IsSound s db
        → store_status s w id result db ≡ some db'
        → IsSound s db'
    unfolding store_status
    store-IsSound id result StatusOutcome.ok db e v h =
        apply_status-IsSound (w.draw id) id result.status (w.now id) db v
          (rw (e, store_status) at h)
    store-IsSound id result StatusOutcome.not_found db e v h =
        subst (IsSound s) (some_eq (rw (e, store_status) at h)) v
    store-IsSound id result StatusOutcome.error db e v h =
        subst (IsSound s) (some_eq (rw (e, store_status) at h)) v

    one_more-after : (p : Polled) → db_after (one_more p) ≡ db_after p
    unfolding db_after
    one_more-after (checked n db) = refl
    one_more-after (raised db) = refl

    go_on-IsSound :
        (next : Db → Polled) (db : Db) (x : Option Db)
        → IsSound s db
        → ((db' : Db) → x ≡ some db' → IsSound s (db_after (next db')))
        → IsSound s (db_after (go_on s w next db x))
    unfolding go_on db_after
    go_on-IsSound next db none v f = v
    go_on-IsSound next db (some db') v f = rw (one_more-after (next db')) (f db' refl)

    poll_all-IsSound :
        (pending : List (ℕ × String)) (db : Db)
        → ((id : ℕ) (d : Db) → IsSound s d → IsSound s (w.meanwhile id d))
        → IsSound s db
        → IsSound s (db_after (poll_all s w pending db))
    unfolding poll_all db_after
    poll_all-IsSound [] db m v = v
    poll_all-IsSound ((id, dm) ∷ pending) db m v =
        let before = w.meanwhile id db in
        let kept = m id db v in
        go_on-IsSound (poll_all s w pending) before
          (store_status s w id (get_dm_status w.transport s dm) before) kept
          (λ db' e.
            poll_all-IsSound pending db' m
              (store-IsSound id (get_dm_status w.transport s dm) _ before refl kept e))

    -- Where the settings allow a send and a delivery, a round of polls keeps every job within its
    -- budgets and the table valid, whatever the API answers and whether or not a poll raises, if the
    -- other sessions keep that meanwhile.
    pub run_once-keeps :
        (batch_size : ℕ) (db : Db)
        → ((id : ℕ) (d : Db) → IsSound s d → IsSound s (w.meanwhile id d))
        → IsSound s db
        → IsSound s (db_after (run_once s w batch_size db))
    unfolding run_once
    run_once-keeps batch_size db m v = poll_all-IsSound (load_pending batch_size db) db m v
