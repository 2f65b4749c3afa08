-- ===== src/Jobs/Cancel.antt =====
-- app/services/jobs.py, cancel_jobs_for_comment: a comment's jobs afterwards.
use linkplease_tech_assignme.Base.{
  ◌≡◌, refl, Bool, true, false, ◌&&◌, ◌||◌, count_where, String, some, List, [], ◌∷◌, arith, All,
  truthy, sql_eq, is_empty, update_where, Bool-cases, inl, inr,
}
use linkplease_tech_assignme.Models.{Db, Time, DmJob, JobStatus, job_status_eq}
use linkplease_tech_assignme.Jobs.{cancel_jobs_for_comment, cancellable_for}

-- The job belongs to the comment and may still be sent.
abbrev pub may_send : String → DmJob → Bool
may_send c j =
    sql_eq j.comment_id c
    && (job_status_eq j.status JobStatus.queued || job_status_eq j.status JobStatus.retry_wait)

-- No job of the comment `c` can be sent any more: none is queued or waits for a retry.
abbrev pub NothingToSend : String → Db → Type 0
NothingToSend c db = All (λ j. may_send c j ≡ false) db.jobs

abbrev cancel_row : Time → DmJob → DmJob
cancel_row now j = record j { status = JobStatus.cancelled; updated_at = now }

cancelled_row : (c : String) (now : Time) (j : DmJob) → may_send c (cancel_row now j) ≡ false
cancelled_row c now j = ground arith

may_send_is : (c : String) (j : DmJob) → cancellable_for c j ≡ may_send c j
unfolding cancellable_for
may_send_is c j = ground arith

-- Row by row: a job that may be sent is cancelled, and every other is as it was.
pub data Cancels (c : String) (now : Time) : List DmJob → List DmJob → Type 0 where
  no_job : Cancels c now [] []
  cancels :
      (j : DmJob) (js ks : List DmJob)
      → may_send c j ≡ true
      → Cancels c now js ks
      → Cancels c now (j ∷ js) (cancel_row now j ∷ ks)
  leaves :
      (j : DmJob) (js ks : List DmJob)
      → may_send c j ≡ false
      → Cancels c now js ks
      → Cancels c now (j ∷ js) (j ∷ ks)

update-Cancels :
    (c : String) (now : Time) (js : List DmJob)
    → Cancels c now js (update_where (cancellable_for c) (cancel_row now) js)
update-Cancels c now [] = no_job
update-Cancels c now (j ∷ js) = elim (Bool-cases (may_send c j)) [
  | inl e ↦ rw (may_send_is c j, e) (cancels j js _ e (update-Cancels c now js))
  | inr e ↦ rw (may_send_is c j, e) (leaves j js _ e (update-Cancels c now js))
]

Cancels-All :
    (c : String) (now : Time) (js ks : List DmJob)
    → Cancels c now js ks
    → All (λ j. may_send c j ≡ false) ks
Cancels-All c now _ _ no_job = tt
Cancels-All c now _ _ (cancels j js ks e r) = (cancelled_row c now j, Cancels-All c now js ks r)
Cancels-All c now _ _ (leaves j js ks e r) = (e, Cancels-All c now js ks r)

count-may_send :
    (c : String) (js : List DmJob)
    → count_where (cancellable_for c) js ≡ count_where (may_send c) js
count-may_send c [] = refl
count-may_send c (j ∷ js) = ground (arith, may_send_is c j, count-may_send c js)

not_empty : (c : String) → truthy (some c) ≡ true → is_empty c ≡ false
not_empty String.[] h = cc
not_empty (String.◌∷◌ x s) h = refl

-- The cancellation for a comment with a key takes exactly the jobs of this comment that are queued or wait
-- for a retry, marks each as cancelled at its time and changes nothing else of it, leaves every other job
-- as it was, and returns how many it took.
pub cancel_jobs-Cancels :
    (c : String) (now : Time) (db : Db)
    → truthy (some c) ≡ true
    → let (n, db') = cancel_jobs_for_comment c now db in
      Cancels c now db.jobs db'.jobs × (n ≡ count_where (may_send c) db.jobs)
unfolding cancel_jobs_for_comment
cancel_jobs-Cancels c now db t =
    rw (not_empty c t, cancel_jobs_for_comment)
      (update-Cancels c now db.jobs, count-may_send c db.jobs)

-- So no job of it is queued or waits for a retry.
pub cancel-NothingToSend :
    (c : String) (now : Time) (db : Db)
    → truthy (some c) ≡ true
    → NothingToSend c (cancel_jobs_for_comment c now db).1
cancel-NothingToSend c now db t = Cancels-All c now db.jobs _ (cancel_jobs-Cancels c now db t).0

-- Cancelling writes the jobs and nothing else.
pub cancel_frame :
    (c : String) (now : Time) (db : Db)
    → (cancel_jobs_for_comment c now db).1
      ≡ record db { jobs = (cancel_jobs_for_comment c now db).1.jobs }
unfolding cancel_jobs_for_comment
cancel_frame c now db = ground arith
