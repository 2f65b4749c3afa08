-- ===== src/Jobs.antt =====
-- app/services/jobs.py: the life of a DM job. Each function that writes a job row is a function on
-- the row, and the flush that follows it is `save_job`.
pub mod Outcomes
pub mod Backoff
pub mod Rows
pub mod Diagram
pub mod Later
pub mod Writes
pub mod Claim
pub mod Table
pub mod Sound
pub mod Requeue
pub mod Flight
pub mod Recovery
pub mod Cancel
pub mod Stats
use linkplease_tech_assignme.Base.{
  ℕ, zero, suc, ◌+◌, ◌-◌, ◌*◌, ◌/◌, ◌^◌, min, max, Bool, true, false, not, ◌&&◌, ◌||◌, String,
  Option, none, some, List, [], ◌∷◌, ◌++◌, ◌==◌, leb, ltb, str_eq, sql_eq, truthy, or_else,
  if◌then◌else◌, is_empty, take_chars, append_text, any_where, first_where, update_where,
  count_where, select_where, take, order_by, map,
}
use linkplease_tech_assignme.Config.{Settings, second}
use linkplease_tech_assignme.Models.{
  Db, Time, Rule, DmJob, JobStatus, CounterKey, conflicts, job_status_eq, job_status_in,
  pending_job_statuses, cancellable_job_statuses,
}
use linkplease_tech_assignme.Models.Slots.{replace, other_conflicts}
use linkplease_tech_assignme.Counters
use linkplease_tech_assignme.Pseudogram.{SendOutcome, SendResult, Seconds, finite, infinite}

abbrev pub max_error_length : ℕ
max_error_length = 500

pub data CreateOutcome : Type 0 where
  created duplicate : CreateOutcome

pub record CreateResult : Type 0 where
  pub outcome : CreateOutcome
  pub job_id : Option ℕ

-- `DMJob(…)` with the defaults of its columns.
unfoldable pub new_job : ℕ → Rule → String → Option String → Time → DmJob
new_job id rule user_id comment_id now = record {
  id = id;
  rule_id = rule.id;
  user_id = user_id;
  comment_id = comment_id;
  message = rule.dm_message;
  status = JobStatus.queued;
  attempts = 0;
  transient_failures = 0;
  send_cycle = 0;
  dm_id = none;
  next_retry_at = none;
  last_error = none;
  last_status_check_at = none;
  created_at = now;
  updated_at = now;
}

-- INSERT of a job. `none` is `IntegrityError`: the rule is gone (the foreign key), or another row
-- holds the slot of this rule and user (the partial unique index).
unfoldable pub insert_job : DmJob → Db → Option Db
insert_job job db =
    if not (any_where (λ r. str_eq r.id job.rule_id) db.rules)
    then none
    else if any_where (λ j. conflicts j job) db.jobs
    then none
    else some (record db { jobs = db.jobs ++ job ∷ []; next_job_id = suc db.next_job_id })

unfoldable pub create_job : Rule → String → Option String → Time → Db → CreateResult × Db
unfolding new_job
create_job rule user_id comment_id now db =
    elim (insert_job (new_job db.next_job_id rule user_id comment_id now) db) [
      | none ↦ (
        record { outcome = CreateOutcome.duplicate; job_id = none },
        Counters.increment CounterKey.duplicates_blocked 1 db,
      )
      | some db' ↦ (record { outcome = CreateOutcome.created; job_id = some db.next_job_id }, db')
    ]

cancellable_for : String → DmJob → Bool
cancellable_for comment_id j =
    sql_eq j.comment_id comment_id && job_status_in j.status cancellable_job_statuses

unfoldable pub cancel_jobs_for_comment : String → Time → Db → ℕ × Db
unfolding cancellable_for
cancel_jobs_for_comment comment_id now db = if is_empty comment_id then (0, db) else (
  count_where (cancellable_for comment_id) db.jobs,
  record db {
    jobs =
        update_where (cancellable_for comment_id)
          (λ j. record j { status = JobStatus.cancelled; updated_at = now }) db.jobs;
  },
)

-- `next_retry_at <= now`, which is not true of NULL.
abbrev is_due : Time → Option Time → Bool
is_due now none = false
is_due now (some t) = leb t now

-- The WHERE of `claim_next_job`.
pub runnable : Time → DmJob → Bool
runnable now j =
    job_status_eq j.status JobStatus.queued
    || (job_status_eq j.status JobStatus.retry_wait && is_due now j.next_retry_at)

-- Its ORDER BY: rows with no `next_retry_at` first, then the earliest, then the lowest key.
abbrev before_time : Option Time → Option Time → ℕ → ℕ → Bool
before_time none none i k = leb i k
before_time none (some u) i k = true
before_time (some t) none i k = false
before_time (some t) (some u) i k = ltb t u || (t == u && leb i k)

pub claims_before : DmJob → DmJob → Bool
claims_before j k = before_time j.next_retry_at k.next_retry_at j.id k.id

pub candidate_ids : Time → Db → List ℕ
unfolding runnable claims_before
candidate_ids now db =
    map (λ j. j.id) (take 10 (order_by claims_before (select_where (runnable now) db.jobs)))

abbrev pub job_by_id : ℕ → Db → Option DmJob
job_by_id id db = first_where (λ j. j.id == id) db.jobs

claimable : ℕ → DmJob → Bool
claimable id j = j.id == id && job_status_in j.status (JobStatus.queued ∷ JobStatus.retry_wait ∷ [])

pub mark_sending : ℕ → Time → Db → Db
unfolding claimable
mark_sending id stamp db = record db {
  jobs =
      update_where (claimable id) (λ j. record j { status = JobStatus.sending; updated_at = stamp })
        db.jobs;
}

-- The loop over the candidates, on the table as it is by then.
unfoldable pub claim_first : List ℕ → Time → Db → Option DmJob × Db
unfolding claimable mark_sending
claim_first [] stamp db = (none, db)
claim_first (id ∷ ids) stamp db =
    let rest = claim_first ids stamp db in
    if count_where (claimable id) db.jobs == 0
    then rest
    else (job_by_id id (mark_sending id stamp db), mark_sending id stamp db)

unfoldable pub claim_next_job : Time → Time → Db → Option DmJob × Db
unfolding claim_first candidate_ids
claim_next_job now stamp db = claim_first (candidate_ids now db) stamp db

-- `updated_at < utcnow() - timedelta(seconds=stale_seconds)`
pub stale : Time → ℕ → DmJob → Bool
stale now stale_seconds j =
    job_status_eq j.status JobStatus.sending && ltb (j.updated_at + stale_seconds) now

pub requeue_stale_sending : ℕ → Time → Time → Db → ℕ × Db
unfolding stale
requeue_stale_sending stale_seconds now stamp db = (
  count_where (stale now stale_seconds) db.jobs,
  record db {
    jobs =
        update_where (stale now stale_seconds)
          (λ j. record j { status = JobStatus.queued; updated_at = stamp }) db.jobs;
  },
)

-- `random.random()` is a whole number of units of 2⁻⁵³.
abbrev pub random_units : ℕ
random_units = 2 ^ 53

abbrev pub tenth_second : ℕ
tenth_second = 100000

-- `base + random.uniform(-jitter, jitter)` with the draw `draw`, and at least 0.1.
jittered : ℕ → ℕ → ℕ → ℕ
jittered base jitter draw = max tenth_second (base + 2 * jitter * draw / random_units - jitter)

-- `float * 2**exponent`, which raises `OverflowError` (`none`) where the power is too large for a float.
pub backoff_base : ℕ → Settings → Option ℕ
backoff_base attempts settings =
    if leb 1024 (attempts - 1)
    then none
    else some
        (min (settings.retry_base_seconds * 2 ^ (attempts - 1)) settings.retry_max_backoff_seconds)

pub backoff_jitter : ℕ → Settings → ℕ
backoff_jitter base settings = base * settings.retry_jitter_ratio / 1000000

with_jitter : Settings → ℕ → Option ℕ → Option ℕ
unfolding jittered backoff_jitter
with_jitter settings draw none = none
with_jitter settings draw (some base) = some (jittered base (backoff_jitter base settings) draw)

unfoldable pub backoff_delay : ℕ → Settings → ℕ → Option ℕ
unfolding with_jitter backoff_base
backoff_delay attempts settings draw = with_jitter settings draw (backoff_base attempts settings)
