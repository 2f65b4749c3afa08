-- ===== src/Jobs/Outcomes/Effects.antt =====
-- app/services/jobs.py: the row before and after a reply.
use linkplease_tech_assignme.Base.{
  ℕ, ◌+◌, ◌≡◌, refl, ◌∙◌, ◌⊎◌, String, Option, none, some, arith, if◌then◌else◌, not_none,
  Bool-cases, inl, inr, leb,
}
use linkplease_tech_assignme.Config.{Settings}
use linkplease_tech_assignme.Models.{Time, DmJob, JobStatus}
use linkplease_tech_assignme.Pseudogram.{SendOutcome, SendResult, Seconds, finite}
use linkplease_tech_assignme.Jobs.Outcomes.Budget.{failed_once}
use linkplease_tech_assignme.Jobs.Outcomes.{
  schedule_retry, schedule_backoff, handle_transient_failure, send_branch, apply_send_result,
  mark_delivered, delivery_failed, apply_delivery_status, status_is,
}

-- `j'` is the same job: what it sends, to whom, for which comment.
pub record SameJob (j j' : DmJob) : Type 0 where
  pub same_id : j'.id ≡ j.id
  pub same_rule : j'.rule_id ≡ j.rule_id
  pub same_user : j'.user_id ≡ j.user_id
  pub same_comment : j'.comment_id ≡ j.comment_id
  pub same_message : j'.message ≡ j.message
  pub same_creation : j'.created_at ≡ j.created_at

pub SameJob-refl : (j : DmJob) → SameJob j j
SameJob-refl j = record {
  same_id = refl;
  same_rule = refl;
  same_user = refl;
  same_comment = refl;
  same_message = refl;
  same_creation = refl;
}

pub SameJob-trans : (j k l : DmJob) → SameJob j k → SameJob k l → SameJob j l
SameJob-trans j k l a b = record {
  same_id = b.same_id ∙ a.same_id;
  same_rule = b.same_rule ∙ a.same_rule;
  same_user = b.same_user ∙ a.same_user;
  same_comment = b.same_comment ∙ a.same_comment;
  same_message = b.same_message ∙ a.same_message;
  same_creation = b.same_creation ∙ a.same_creation;
}

-- A row with other counts.
counted-SameJob :
    (j k : DmJob)
    → k ≡ record j {
      attempts = k.attempts;
      transient_failures = k.transient_failures;
      send_cycle = k.send_cycle;
      dm_id = k.dm_id;
      last_status_check_at = k.last_status_check_at;
    }
    → SameJob j k
counted-SameJob j k e = record {
  same_id = rw e refl;
  same_rule = rw e refl;
  same_user = rw e refl;
  same_comment = rw e refl;
  same_message = rw e refl;
  same_creation = rw e refl;
}

-- What a reply to a send has done.
pub record Replied (j j' : DmJob) : Type 0 where
  pub same : SameJob j j'
  pub same_cycle : j'.send_cycle ≡ j.send_cycle
  pub settled :
      (j'.status ≡ JobStatus.accepted)
      ⊎ ((j'.status ≡ JobStatus.retry_wait) ⊎ (j'.status ≡ JobStatus.failed))

schedule-Replied :
    (delay : Seconds) (e : Option String) (now : Time) (j : DmJob) {j' : DmJob}
    → schedule_retry delay e now j ≡ some j'
    → Replied j j'
unfolding schedule_retry
schedule-Replied delay e now j h = ground arith

backoff-Replied :
    (delay : Option ℕ) (e : Option String) (now : Time) (j : DmJob) {j' : DmJob}
    → schedule_backoff delay e now j ≡ some j'
    → Replied j j'
unfolding schedule_backoff
backoff-Replied none e now j h = absurd (not_none h)
backoff-Replied (some d) e now j h = schedule-Replied (finite d) e now j h

backoff-waits :
    (delay : Option ℕ) (e : Option String) (now : Time) (j : DmJob) {j' : DmJob}
    → schedule_backoff delay e now j ≡ some j'
    → j'.status ≡ JobStatus.retry_wait
unfolding schedule_backoff schedule_retry
backoff-waits none e now j h = absurd (not_none h)
backoff-waits (some d) e now j h = ground arith

transient-Replied :
    (s : Settings) (draw : ℕ) (e : Option String) (now : Time) (j : DmJob) {j' : DmJob}
    → handle_transient_failure s draw e now j ≡ some j'
    → Replied j j'
unfolding handle_transient_failure
transient-Replied s draw e now j h =
    elim (Bool-cases (leb s.max_dm_attempts (j.transient_failures + 1))) [
      | inl g ↦ ground arith
      | inr g ↦
          let counted = record j {
            attempts = j.attempts + 1;
            transient_failures = j.transient_failures + 1;
          } in
          let r = backoff-Replied _ e now counted (rw g at h) in
          record {
            same = SameJob-trans j counted _ (counted-SameJob j counted refl) r.same;
            same_cycle = r.same_cycle;
            settled = r.settled;
          }
    ]

branch-Replied :
    (s : Settings) (draw : ℕ) (r : SendResult) (now : Time) (j : DmJob) {j' : DmJob}
    (o : SendOutcome)
    → send_branch o s draw r now j ≡ some j'
    → Replied j j'
unfolding send_branch
branch-Replied s draw r now j SendOutcome.accepted h = ground arith
branch-Replied s draw r now j SendOutcome.rate_limited h = ground arith
branch-Replied s draw r now j SendOutcome.invalid h = ground arith
branch-Replied s draw r now j SendOutcome.auth_error h = ground arith
branch-Replied s draw r now j SendOutcome.server_error h = transient-Replied s draw _ now j h
branch-Replied s draw r now j SendOutcome.transport_error h = transient-Replied s draw _ now j h
branch-Replied s draw r now j SendOutcome.unexpected h = transient-Replied s draw _ now j h

-- A reply to a send changes neither what the job sends, to whom, for which comment, nor its send cycle,
-- and leaves it accepted, waiting for a retry, or failed.
pub apply_send_result-Replied :
    (s : Settings) (draw : ℕ) (r : SendResult) (now : Time) (j : DmJob) {j' : DmJob}
    → apply_send_result s draw r now j ≡ some j'
    → Replied j j'
unfolding apply_send_result
apply_send_result-Replied s draw r now j h = branch-Replied s draw r now j r.outcome h

-- What the status of an accepted DM has done.
pub record Checked (status : Option String) (j j' : DmJob) : Type 0 where
  pub same : SameJob j j'
  pub cycle :
      j'.send_cycle
      ≡ j.send_cycle
        + (if status_is status "delivered" then 0 else if status_is status "failed" then 1 else 0)
  pub ended :
      (j'.status ≡ JobStatus.delivered)
      ⊎ ((j'.status ≡ JobStatus.retry_wait)
          ⊎ ((j'.status ≡ JobStatus.failed) ⊎ (j'.status ≡ j.status)))

failed-Checked :
    (s : Settings) (draw : ℕ) (now : Time) (j : DmJob) {j' : DmJob}
    → delivery_failed s draw now j ≡ some j'
    → SameJob j j'
      × (j'.send_cycle ≡ j.send_cycle + 1)
      × ((j'.status ≡ JobStatus.retry_wait) ⊎ (j'.status ≡ JobStatus.failed))
unfolding delivery_failed
failed-Checked s draw now j h = elim (Bool-cases (leb s.max_delivery_attempts (j.send_cycle + 1))) [
  | inl g ↦ ground arith
  | inr g ↦
      let r = backoff-Replied _ (some "delivery_failed") now (failed_once now j) (rw g at h) in
      (
        SameJob-trans j (failed_once now j) _ (counted-SameJob j (failed_once now j) refl) r.same,
        r.same_cycle,
        inl (backoff-waits _ _ now (failed_once now j) (rw g at h)),
      )
]

-- Whatever the delivery status is, the job stays the same job, its send cycle advances by one exactly
-- when the status is "failed", and it ends delivered, waiting for a retry, failed, or as it was.
pub apply_delivery_status-Checked :
    (s : Settings) (draw : ℕ) (status : Option String) (now : Time) (j : DmJob) {j' : DmJob}
    → apply_delivery_status s draw status now j ≡ some j'
    → Checked status j j'
unfolding apply_delivery_status mark_delivered
apply_delivery_status-Checked s draw status now j h =
    elim (Bool-cases (status_is status "delivered")) [
      | inl e ↦ ground arith
      | inr e ↦ elim (Bool-cases (status_is status "failed")) [
        | inl f ↦
            let (same, cycle, ended) = failed-Checked s draw now j (rw (e, f) at h) in
            record { same = same; cycle = rw (e, f) cycle; ended = ground arith }
        | inr f ↦ ground arith
      ]
    ]
