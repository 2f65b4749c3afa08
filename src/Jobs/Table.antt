-- ===== src/Jobs/Table.antt =====
-- The invariant of the `dm_jobs` table, and the statements of app/services/jobs.py.
use linkplease_tech_assignme.Base.{
  ℕ, suc, ◌<◌, ◌≡◌, refl, Bool, true, false, String, Option, some, List, [], ◌∷◌, ◌++◌, arith, All,
  All-append, All-update_where, All-map, any_where, update_where, Bool-cases, Option-cases, inl,
  inr, str_eq, is_empty,
}
use linkplease_tech_assignme.Models.{
  Db, Time, Rule, DmJob, JobStatus, CounterKey, conflicts, holds_slot,
}
use linkplease_tech_assignme.Models.Slots.{
  SlotsUnique, Ascending, Narrows, append-SlotsUnique, append-Ascending, update_where-SlotsUnique,
  update_where-Ascending,
}
use linkplease_tech_assignme.Counters
use linkplease_tech_assignme.Counters.Laws.{increment_frame}
use linkplease_tech_assignme.Jobs.{
  new_job, insert_job, create_job, cancel_jobs_for_comment, mark_sending, requeue_stale_sending,
  cancellable_for, claimable, stale,
}

-- Keys rise and lie below the next one, and the partial unique index holds.
pub record IsValidTable (next : ℕ) (js : List DmJob) : Type 0 where
  pub ascending : Ascending 0 js
  pub below : All (λ j. j.id < next) js
  pub slots : SlotsUnique js

abbrev pub JobsValid : Db → Type 0
JobsValid db = IsValidTable db.next_job_id db.jobs

-- An UPDATE that keeps keys, rules and users and takes no slot.
pub update-IsValidTable :
    (p : DmJob → Bool) (f : DmJob → DmJob) (next : ℕ) (js : List DmJob)
    → ((k : DmJob) → (f k).id ≡ k.id)
    → ((k : DmJob) → p k ≡ true → Narrows k (f k))
    → IsValidTable next js
    → IsValidTable next (update_where p f js)
update-IsValidTable p f next js same narrows v = record {
  ascending = update_where-Ascending p f 0 js same v.ascending;
  below = All-update_where (λ j. j.id < next) p f js (λ x _ h. rw (same x) h) v.below;
  slots = update_where-SlotsUnique p f js narrows v.slots;
}

-- An insertion that succeeds met no conflict, and appends the row.
pub insert_job-eq-some :
    (job : DmJob) (db : Db) {db' : Db}
    → insert_job job db ≡ some db'
    → (any_where (λ r. str_eq r.id job.rule_id) db.rules ≡ true)
      × (any_where (λ j. conflicts j job) db.jobs ≡ false)
      × (db' ≡ record db { jobs = db.jobs ++ job ∷ []; next_job_id = suc db.next_job_id })
unfolding insert_job
insert_job-eq-some job db h = ground arith

append-IsValidTable :
    (job : DmJob) (next : ℕ) (js : List DmJob)
    → job.id ≡ next
    → any_where (λ j. conflicts j job) js ≡ false
    → IsValidTable next js
    → IsValidTable (suc next) (js ++ job ∷ [])
append-IsValidTable job next js fresh free v = record {
  ascending = append-Ascending job 0 js v.ascending (rw fresh v.below) (omega arith);
  below =
      All-append (λ j. j.id < suc next) js (job ∷ []) (All-map (λ j h. omega arith) js v.below)
        (omega arith, tt);
  slots = append-SlotsUnique job js v.slots free;
}

insert_job-JobsValid :
    (job : DmJob) (db : Db) {db' : Db}
    → job.id ≡ db.next_job_id
    → JobsValid db
    → insert_job job db ≡ some db'
    → JobsValid db'
insert_job-JobsValid job db fresh v h =
    let (_, free, e) = insert_job-eq-some job db h in
    rw e (append-IsValidTable job db.next_job_id db.jobs fresh free v)

increment-JobsValid :
    (k : CounterKey) (n : ℕ) (db : Db) → JobsValid db → JobsValid (Counters.increment k n db)
increment-JobsValid k n db v = rw (increment_frame k n db) v

-- Creating a job keeps the table valid, on both outcomes.
pub create_job-JobsValid :
    (rule : Rule) (user : String) (comment : Option String) (now : Time) (db : Db)
    → JobsValid db
    → JobsValid (create_job rule user comment now db).1
unfolding create_job
create_job-JobsValid rule user comment now db v =
    elim (Option-cases (insert_job (new_job db.next_job_id rule user comment now) db)) [
      | inl e ↦ rw (e, create_job) (increment-JobsValid CounterKey.duplicates_blocked 1 db v)
      | inr (db', e) ↦
          rw (e, create_job)
            (insert_job-JobsValid (new_job db.next_job_id rule user comment now) db refl v e)
    ]

cancel_Narrows :
    (comment : String) (now : Time) (k : DmJob)
    → Narrows k (record k { status = JobStatus.cancelled; updated_at = now })
cancel_Narrows comment now k = record {
  same_id = refl;
  same_rule = refl;
  same_user = refl;
  no_new_slot = λ h. absurd (cc);
}

pub cancel_jobs-JobsValid :
    (comment : String) (now : Time) (db : Db)
    → JobsValid db
    → JobsValid (cancel_jobs_for_comment comment now db).1
unfolding cancel_jobs_for_comment
cancel_jobs-JobsValid comment now db v = elim (Bool-cases (is_empty comment)) [
  | inl e ↦ rw (e, cancel_jobs_for_comment) v
  | inr e ↦
      rw (e, cancel_jobs_for_comment)
        (update-IsValidTable (cancellable_for comment) _ db.next_job_id db.jobs (λ k. refl)
          (λ k _. cancel_Narrows comment now k) v)
]

-- A status that is not `cancelled`, given to a row that holds its slot.
hold_Narrows :
    (status : JobStatus) (stamp : Time) (k : DmJob)
    → holds_slot k ≡ true
    → Narrows k (record k { status = status; updated_at = stamp })
hold_Narrows status stamp k h = record {
  same_id = refl;
  same_rule = refl;
  same_user = refl;
  no_new_slot = λ _. h;
}

claimable-holds : (id : ℕ) (k : DmJob) → claimable id k ≡ true → holds_slot k ≡ true
unfolding claimable
claimable-holds id k h = ground arith

pub mark_sending-JobsValid :
    (id : ℕ) (stamp : Time) (db : Db) → JobsValid db → JobsValid (mark_sending id stamp db)
unfolding mark_sending
mark_sending-JobsValid id stamp db v =
    update-IsValidTable (claimable id) _ db.next_job_id db.jobs (λ k. refl)
      (λ k h. hold_Narrows JobStatus.sending stamp k (claimable-holds id k h)) v

stale-holds :
    (stale_seconds : ℕ) (now : Time) (k : DmJob)
    → stale now stale_seconds k ≡ true
    → holds_slot k ≡ true
unfolding stale
stale-holds stale_seconds now k h = ground arith

pub requeue_stale-JobsValid :
    (stale_seconds : ℕ) (now stamp : Time) (db : Db)
    → JobsValid db
    → JobsValid (requeue_stale_sending stale_seconds now stamp db).1
unfolding requeue_stale_sending
requeue_stale-JobsValid stale_seconds now stamp db v =
    update-IsValidTable (stale now stale_seconds) _ db.next_job_id db.jobs (λ k. refl)
      (λ k h. hold_Narrows JobStatus.queued stamp k (stale-holds stale_seconds now k h)) v
