-- ===== src/Jobs/Writes.antt =====
-- app/services/jobs.py: what each write to the table of jobs does to it, row by row.
use linkplease_tech_assignme.Base.{
  ℕ, ◌≡◌, refl, sym, ◌∙◌, Bool, true, false, String, Option, some, List, [], ◌∷◌, arith, inl, inr,
  Bool-cases, Option-cases, some_eq, subst, not_none, is_empty, ◌||◌, ◌==◌, ==_iff,
  first_where-fits,
}
use linkplease_tech_assignme.Models.{Db, Time, Rule, DmJob, JobStatus, CounterKey, job_status_eq}
use linkplease_tech_assignme.Models.Slots.{replace, other_conflicts}
use linkplease_tech_assignme.Counters.Laws.{increment_frame}
use linkplease_tech_assignme.Jobs.{
  new_job, insert_job, create_job, cancel_jobs_for_comment, cancellable_for, stale,
  requeue_stale_sending, job_by_id, claim_next_job, claim_first, claimable, mark_sending,
  candidate_ids,
}
use linkplease_tech_assignme.Jobs.Outcomes.{save_job}
use linkplease_tech_assignme.Jobs.Table.{JobsValid, insert_job-eq-some}
use linkplease_tech_assignme.Jobs.Diagram.{
  Edges, Claimed, claim, claim_again, Cancelled, cancel, cancel_again, Released, release, Leads,
  edge-Leads, is_final,
}
use linkplease_tech_assignme.Jobs.Later.{
  Extends, Extends-refl, Extends-append, Extends-update, Extends-replace, All-intro,
}

-- A row with another status along an edge, and another time of writing.
moved-Leads :
    (E : Edges) (t : JobStatus) (now : Time) (j : DmJob)
    → is_final j.status ≡ false
    → E j.status t
    → Leads E j (record j { status = t; updated_at = now })
moved-Leads E t now j f e =
    edge-Leads E j (record j { status = t; updated_at = now })
      (record {
        same_id = refl;
        same_rule = refl;
        same_user = refl;
        same_comment = refl;
        same_message = refl;
        same_creation = refl;
      })
      (omega arith) f e

-- `status.in_((QUEUED, RETRY_WAIT))`
abbrev in_queue : JobStatus → Bool
in_queue s = job_status_eq s JobStatus.queued || job_status_eq s JobStatus.retry_wait

in_queue-open : (s : JobStatus) → in_queue s ≡ true → is_final s ≡ false
in_queue-open s e = ground arith

-- An edge from both of these statuses.
from_queue :
    (E : Edges) (t : JobStatus)
    → E JobStatus.queued t
    → E JobStatus.retry_wait t
    → (s : JobStatus) → in_queue s ≡ true
    → E s t
from_queue E t q r JobStatus.queued e = q
from_queue E t q r JobStatus.retry_wait e = r
from_queue E t q r JobStatus.sending e = absurd (ground arith)
from_queue E t q r JobStatus.accepted e = absurd (ground arith)
from_queue E t q r JobStatus.delivered e = absurd (ground arith)
from_queue E t q r JobStatus.failed e = absurd (ground arith)
from_queue E t q r JobStatus.cancelled e = absurd (ground arith)

from_sending :
    (s : JobStatus) → job_status_eq s JobStatus.sending ≡ true → Released s JobStatus.queued
from_sending JobStatus.sending e = release
from_sending JobStatus.queued e = absurd (ground arith)
from_sending JobStatus.retry_wait e = absurd (ground arith)
from_sending JobStatus.accepted e = absurd (ground arith)
from_sending JobStatus.delivered e = absurd (ground arith)
from_sending JobStatus.failed e = absurd (ground arith)
from_sending JobStatus.cancelled e = absurd (ground arith)

Cancelled-Leads :
    (c : String) (now : Time) (j : DmJob)
    → cancellable_for c j ≡ true
    → Leads Cancelled j (record j { status = JobStatus.cancelled; updated_at = now })
unfolding cancellable_for
Cancelled-Leads c now j h =
    let q : in_queue j.status ≡ true = ground arith in
    moved-Leads Cancelled JobStatus.cancelled now j (in_queue-open j.status q)
      (from_queue Cancelled JobStatus.cancelled cancel cancel_again j.status q)

Claimed-Leads :
    (id : ℕ) (stamp : Time) (j : DmJob)
    → claimable id j ≡ true
    → Leads Claimed j (record j { status = JobStatus.sending; updated_at = stamp })
unfolding claimable
Claimed-Leads id stamp j h =
    let q : in_queue j.status ≡ true = ground arith in
    moved-Leads Claimed JobStatus.sending stamp j (in_queue-open j.status q)
      (from_queue Claimed JobStatus.sending claim claim_again j.status q)

pub Released-Leads :
    (now : Time) (j : DmJob)
    → job_status_eq j.status JobStatus.sending ≡ true
    → Leads Released j (record j { status = JobStatus.queued; updated_at = now })
Released-Leads now j h =
    moved-Leads Released JobStatus.queued now j (ground arith) (from_sending j.status h)

stale-Leads :
    (n : ℕ) (now stamp : Time) (j : DmJob)
    → stale now n j ≡ true
    → Leads Released j (record j { status = JobStatus.queued; updated_at = stamp })
unfolding stale
stale-Leads n now stamp j h = Released-Leads stamp j (ground arith)

module _ (Fresh : Option String → Type 0) where
  pub create_job-Extends :
      (rule : Rule) (user : String) (comment : Option String) (now : Time) (db : Db)
      → Fresh comment
      → Extends Cancelled Fresh db.jobs (create_job rule user comment now db).1.jobs
  unfolding create_job new_job
  create_job-Extends rule user comment now db f =
      elim (Option-cases (insert_job (new_job db.next_job_id rule user comment now) db)) [
        | inl e ↦
            rw (e, create_job)
              (rw (increment_frame CounterKey.duplicates_blocked 1 db)
                (Extends-refl Cancelled Fresh db.jobs))
        | inr (db', e) ↦
            let job = new_job db.next_job_id rule user comment now in
            let (_, _, same) = insert_job-eq-some job db e in
            rw (e, create_job)
              (rw same (
                Extends-append Cancelled Fresh db.jobs job (record { path = inl refl; fresh = f })))
      ]

  pub cancel_jobs-Extends :
      (comment : String) (now : Time) (db : Db)
      → Extends Cancelled Fresh db.jobs (cancel_jobs_for_comment comment now db).1.jobs
  unfolding cancel_jobs_for_comment
  cancel_jobs-Extends comment now db = elim (Bool-cases (is_empty comment)) [
    | inl e ↦ rw (e, cancel_jobs_for_comment) (Extends-refl Cancelled Fresh db.jobs)
    | inr e ↦
        rw (e, cancel_jobs_for_comment)
          (Extends-update Cancelled Fresh (cancellable_for comment)
            (λ (j : DmJob). record j { status = JobStatus.cancelled; updated_at = now }) db.jobs
            (All-intro (Cancelled-Leads comment now) db.jobs))
  ]

  mark_sending-Extends :
      (id : ℕ) (stamp : Time) (db : Db)
      → Extends Claimed Fresh db.jobs (mark_sending id stamp db).jobs
  unfolding mark_sending
  mark_sending-Extends id stamp db =
      Extends-update Claimed Fresh (claimable id)
        (λ (j : DmJob). record j { status = JobStatus.sending; updated_at = stamp }) db.jobs
        (All-intro (Claimed-Leads id stamp) db.jobs)

  claim_first-Extends :
      (ids : List ℕ) (stamp : Time) (db : Db)
      → Extends Claimed Fresh db.jobs (claim_first ids stamp db).1.jobs
  unfolding claim_first
  claim_first-Extends [] stamp db = Extends-refl Claimed Fresh db.jobs
  claim_first-Extends (id ∷ ids) stamp db =
      ground (arith, claim_first-Extends ids stamp db, mark_sending-Extends id stamp db)

  pub claim_next_job-Extends :
      (now stamp : Time) (db : Db)
      → Extends Claimed Fresh db.jobs (claim_next_job now stamp db).1.jobs
  unfolding claim_next_job
  claim_next_job-Extends now stamp db = claim_first-Extends (candidate_ids now db) stamp db

  pub requeue_stale-Extends :
      (n : ℕ) (now stamp : Time) (db : Db)
      → Extends Released Fresh db.jobs (requeue_stale_sending n now stamp db).1.jobs
  unfolding requeue_stale_sending
  requeue_stale-Extends n now stamp db =
      Extends-update Released Fresh (stale now n)
        (λ (j : DmJob). record j { status = JobStatus.queued; updated_at = stamp }) db.jobs
        (All-intro (stale-Leads n now stamp) db.jobs)

-- They write the jobs and nothing else.
pub cancel_jobs_frame :
    (comment : String) (now : Time) (db : Db)
    → (cancel_jobs_for_comment comment now db).1
      ≡ record db { jobs = (cancel_jobs_for_comment comment now db).1.jobs }
unfolding cancel_jobs_for_comment
cancel_jobs_frame comment now db = ground arith

claim_first_frame :
    (ids : List ℕ) (stamp : Time) (db : Db)
    → (claim_first ids stamp db).1 ≡ record db { jobs = (claim_first ids stamp db).1.jobs }
unfolding claim_first mark_sending
claim_first_frame [] stamp db = refl
claim_first_frame (id ∷ ids) stamp db = ground (arith, claim_first_frame ids stamp db)

pub claim_next_job_frame :
    (now stamp : Time) (db : Db)
    → (claim_next_job now stamp db).1 ≡ record db { jobs = (claim_next_job now stamp db).1.jobs }
unfolding claim_next_job
claim_next_job_frame now stamp db = claim_first_frame (candidate_ids now db) stamp db

pub save_job-eq-some :
    (job : DmJob) (db : Db) {db' : Db}
    → save_job job db ≡ some db'
    → db' ≡ record db { jobs = replace job db.jobs }
unfolding save_job
save_job-eq-some job db h = elim (Bool-cases (other_conflicts job db.jobs)) [
  | inl e ↦ absurd (not_none (rw e at h))
  | inr e ↦ sym (some_eq (rw e at h))
]

-- A transaction that writes the jobs and nothing else, each along edges of one kind.
pub record JobsWritten (E : Edges) (Fresh : Option String → Type 0) (db db' : Db) : Type 0 where
  pub rows : Extends E Fresh db.jobs db'.jobs
  pub frame : db' ≡ record db { jobs = db'.jobs }

pub nothing-JobsWritten :
    (E : Edges) (Fresh : Option String → Type 0) (db db' : Db)
    → db' ≡ db
    → JobsWritten E Fresh db db'
nothing-JobsWritten E Fresh db db' e = record {
  rows = subst (λ (d : Db). Extends E Fresh db.jobs d.jobs) (sym e) (Extends-refl E Fresh db.jobs);
  frame = rw e refl;
}

-- The flush of a row that was read under its key and went on.
pub replaced-JobsWritten :
    (E : Edges) (Fresh : Option String → Type 0) (id : ℕ) (job job' : DmJob) (db db' : Db)
    → JobsValid db
    → job_by_id id db ≡ some job
    → Leads E job job'
    → db' ≡ record db { jobs = replace job' db.jobs }
    → JobsWritten E Fresh db db'
replaced-JobsWritten E Fresh id job job' db db' v e l h =
    let key : job.id ≡ id =
      (==_iff job.id id).0 (first_where-fits (λ (j : DmJob). j.id == id) db.jobs job e) in
    record {
      rows =
          subst (λ (d : Db). Extends E Fresh db.jobs d.jobs) (sym h)
            (Extends-replace E Fresh id job job' db v e (l.same.same_id ∙ key) l);
      frame = rw h refl;
    }
