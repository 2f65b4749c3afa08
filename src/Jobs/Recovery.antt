-- ===== src/Jobs/Recovery.antt =====
-- app/services/jobs.py: the jobs after `requeue_stale_sending`.
use linkplease_tech_assignme.Base.{
  ℕ, ◌≡◌, refl, false, List, [], ◌∷◌, All, update_where, Bool-cases, inl, inr,
}
use linkplease_tech_assignme.Models.{Db, Time, DmJob, JobStatus}
use linkplease_tech_assignme.Jobs.{stale, requeue_stale_sending}

none_stale :
    (n : ℕ) (now stamp : Time) (js : List DmJob)
    → All
        (λ j. stale now n j ≡ false)
        (update_where
          (stale now n)
          (λ j. record j { status = JobStatus.queued; updated_at = stamp })
          js)
unfolding stale
none_stale n now stamp [] = tt
none_stale n now stamp (j ∷ js) = elim (Bool-cases (stale now n j)) [
  | inl e ↦ rw (e, stale) (refl, none_stale n now stamp js)
  | inr e ↦ rw (e, stale) (e, none_stale n now stamp js)
]

pub requeue_stale-none :
    (n : ℕ) (now stamp : Time) (db : Db)
    → All (λ j. stale now n j ≡ false) (requeue_stale_sending n now stamp db).1.jobs
unfolding requeue_stale_sending
requeue_stale-none n now stamp db = none_stale n now stamp db.jobs

-- It writes the jobs and nothing else.
pub requeue_stale_frame :
    (n : ℕ) (now stamp : Time) (db : Db)
    → (requeue_stale_sending n now stamp db).1
      ≡ record db { jobs = (requeue_stale_sending n now stamp db).1.jobs }
unfolding requeue_stale_sending
requeue_stale_frame n now stamp db = refl
