-- ===== src/Jobs/Flight.antt =====
-- app/services/jobs.py: what the writes to the jobs do to a job in flight, whose send awaits
-- its reply.
use linkplease_tech_assignme.Base.{
  ℕ, ◌≡◌, refl, sym, ◌∙◌, true, String, Option, some, List, [], ◌∷◌, All, All-map, All-append,
  All-update_where, ◌==◌, ==_iff, Bool-cases, Option-cases, inl, inr, is_empty, some_eq, subst,
}
use linkplease_tech_assignme.Models.{Db, Time, Rule, DmJob, CounterKey}
use linkplease_tech_assignme.Counters.Laws.{increment_frame}
use linkplease_tech_assignme.Jobs.{
  new_job, insert_job, create_job, cancel_jobs_for_comment, cancellable_for, stale,
  requeue_stale_sending, job_by_id, claim_next_job,
}
use linkplease_tech_assignme.Jobs.Outcomes.Budget.{awaits_send}
use linkplease_tech_assignme.Jobs.Rows.{FoundIn, found_self}
use linkplease_tech_assignme.Jobs.Table.{JobsValid, insert_job-eq-some}
use linkplease_tech_assignme.Jobs.Claim.{Claims, claim_next_job-Claims, claim_next_job-found}

-- Every row with the key `id` waits for the reply to a send.
abbrev pub AllAwait : ℕ → List DmJob → Type 0
AllAwait id js = All (λ j. (j.id == id) ≡ true → awaits_send j.status ≡ true) js

pub create_job-AllAwait :
    (id : ℕ) (rule : Rule) (user : String) (comment : Option String) (now : Time) (db : Db)
    → AllAwait id db.jobs
    → AllAwait id (create_job rule user comment now db).1.jobs
unfolding create_job new_job
create_job-AllAwait id rule user comment now db a =
    elim (Option-cases (insert_job (new_job db.next_job_id rule user comment now) db)) [
      | inl e ↦ rw (e, create_job) (rw (increment_frame CounterKey.duplicates_blocked 1 db) a)
      | inr (db', e) ↦
          let job = new_job db.next_job_id rule user comment now in
          let (_, _, same) = insert_job-eq-some job db e in
          rw (e, create_job) (rw same (All-append _ db.jobs (job ∷ []) a ((λ _. refl), tt)))
    ]

pub cancel_jobs-AllAwait :
    (id : ℕ) (comment : String) (now : Time) (db : Db)
    → AllAwait id db.jobs
    → AllAwait id (cancel_jobs_for_comment comment now db).1.jobs
unfolding cancel_jobs_for_comment
cancel_jobs-AllAwait id comment now db a = elim (Bool-cases (is_empty comment)) [
  | inl e ↦ rw (e, cancel_jobs_for_comment) a
  | inr e ↦
      rw (e, cancel_jobs_for_comment)
        (All-update_where _ (cancellable_for comment) _ db.jobs (λ j _ _ _. refl) a)
]

pub requeue_stale-AllAwait :
    (id n : ℕ) (now stamp : Time) (db : Db)
    → AllAwait id db.jobs
    → AllAwait id (requeue_stale_sending n now stamp db).1.jobs
unfolding requeue_stale_sending
requeue_stale-AllAwait id n now stamp db a =
    All-update_where _ (stale now n) _ db.jobs (λ j _ _ _. refl) a

-- In a valid table a key has one row.
pub only_row :
    (id : ℕ) (job : DmJob) (db : Db)
    → JobsValid db
    → job_by_id id db ≡ some job
    → awaits_send job.status ≡ true
    → AllAwait id db.jobs
only_row id job db v e a =
    All-map {Q = λ (k : DmJob). (k.id == id) ≡ true → awaits_send k.status ≡ true}
      (λ (k : DmJob) (found : FoundIn db.jobs k) (h : (k.id == id) ≡ true).
        let same : k.id ≡ id = (==_iff k.id id).0 h in
        let here : job_by_id id db ≡ some k = subst (λ i. job_by_id i db ≡ some k) same found in
        subst (λ (x : DmJob). awaits_send x.status ≡ true) (some_eq (sym e ∙ here)) a)
      db.jobs (found_self 0 db.jobs v.ascending)

-- The job that was just claimed waits for a reply.
pub claimed-AllAwait :
    (now stamp : Time) (db db' : Db) (job : DmJob)
    → JobsValid db
    → JobsValid db'
    → claim_next_job now stamp db ≡ (some job, db')
    → AllAwait job.id db'.jobs
claimed-AllAwait now stamp db db' job v v' e =
    let (_, _, _, _, marked, _) =
      subst (Claims now stamp db) e (claim_next_job-Claims now stamp db v) in
    only_row job.id job db' v' (claim_next_job-found now stamp db job db' e) (rw marked refl)
