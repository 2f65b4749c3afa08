-- ===== src/Events/Processing/Accounting.antt =====
-- app/services/events.py, _process_comment_created: the jobs and the counted duplicates of a
-- comment.
use linkplease_tech_assignme.Base.{
  ℕ, ◌+◌, ◌≡◌, refl, ap, true, false, String, Option, some, List, [], ◌∷◌, arith, length,
  length-append, truthy, Option-cases, inl, inr,
}
use linkplease_tech_assignme.Models.{Db, Time, Rule, Event, EventStatus, CounterKey}
use linkplease_tech_assignme.Counters
use linkplease_tech_assignme.Counters.Laws.{increment_frame, get-increment_self, get_frame}
use linkplease_tech_assignme.Matching.{find_matching_rules}
use linkplease_tech_assignme.Jobs.{new_job, insert_job, create_job}
use linkplease_tech_assignme.Jobs.Table.{insert_job-eq-some}
use linkplease_tech_assignme.Events.{known_deleted}
use linkplease_tech_assignme.Events.Processing.{create_jobs, process_comment_created}

-- The jobs of the table and the duplicates counted so far.
abbrev pub accounted : Db → ℕ
accounted db = length db.jobs + Counters.get CounterKey.duplicates_blocked db

blocked_accounts :
    (db : Db) → accounted (Counters.increment CounterKey.duplicates_blocked 1 db) ≡ accounted db + 1
blocked_accounts db = omega (
  arith,
  ap (λ (d : Db). length d.jobs) (increment_frame CounterKey.duplicates_blocked 1 db),
  get-increment_self CounterKey.duplicates_blocked 1 db,
)

create_job-accounts :
    (rule : Rule) (user : String) (comment : Option String) (now : Time) (db : Db)
    → accounted (create_job rule user comment now db).1 ≡ accounted db + 1
unfolding create_job
create_job-accounts rule user comment now db =
    elim (Option-cases (insert_job (new_job db.next_job_id rule user comment now) db)) [
      | inl e ↦ rw (e, create_job) (blocked_accounts db)
      | inr (db', e) ↦
          let job = new_job db.next_job_id rule user comment now in
          let (_, _, same) = insert_job-eq-some job db e in
          rw (e, create_job)
            (omega (
              arith,
              ap (λ (d : Db). length d.jobs) same,
              length-append db.jobs (job ∷ []),
              get_frame CounterKey.duplicates_blocked db db' (ap (λ (d : Db). d.counters) same),
            ))
    ]

create_jobs-accounts :
    (rules : List Rule) (user : String) (comment : Option String) (now : Time) (db : Db)
    → accounted (create_jobs rules user comment now db) ≡ accounted db + length rules
unfolding create_jobs
create_jobs-accounts [] user comment now db = omega arith
create_jobs-accounts (r ∷ rs) user comment now db = omega (
  arith,
  create_jobs-accounts rs user comment now (create_job r user comment now db).1,
  create_job-accounts r user comment now db,
)

-- A comment that is not known to be deleted, from a user with a name, adds one for each rule that
-- matches its text: a job, or one more in `duplicates_blocked`.
pub process_comment_created-accounts :
    (lower : String → String) (event : Event) (user : String) (now : Time) (db : Db)
    → event.user_id ≡ some user
    → truthy (some user) ≡ true
    → known_deleted event.comment_id db ≡ false
    → let (status, db') = process_comment_created lower event now db in
      (status ≡ EventStatus.processed)
      × (accounted db' ≡ accounted db + length (find_matching_rules lower event.text db))
unfolding process_comment_created
process_comment_created-accounts lower event user now db u t k =
    rw (u, process_comment_created)
      (rw (t, k)
        (
          refl,
          create_jobs-accounts (find_matching_rules lower event.text db) user event.comment_id now
              db,
        ))
