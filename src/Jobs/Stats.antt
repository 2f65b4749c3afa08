-- ===== src/Jobs/Stats.antt =====
-- app/services/jobs.py, compute_stats, and app/schemas.py, StatsOut.
use linkplease_tech_assignme.Base.{
  ℕ, ◌+◌, ◌≡◌, refl, true, false, List, [], ◌∷◌, arith, length, count_where, if◌then◌else◌, ◌==◌,
  Bool-cases, inl, inr,
}
use linkplease_tech_assignme.Models.{
  Db, DmJob, JobStatus, CounterKey, job_status_eq, job_status_rank, job_status_in,
  pending_job_statuses,
}
use linkplease_tech_assignme.Counters

-- The rows of SELECT status, COUNT(id) … GROUP BY status.
abbrev StatusCounts : Type 0
StatusCounts = List (JobStatus × ℕ)

add_one : JobStatus → StatusCounts → StatusCounts
add_one s [] = (s, 1) ∷ []
add_one s ((t, n) ∷ rows) = if job_status_eq t s then (t, n + 1) ∷ rows else (t, n) ∷ add_one s rows

group_by_status : List DmJob → StatusCounts
unfolding add_one
group_by_status [] = []
group_by_status (j ∷ js) = add_one j.status (group_by_status js)

-- `by_status.get(status, 0)`
get_count : JobStatus → StatusCounts → ℕ
get_count s [] = 0
get_count s ((t, n) ∷ rows) = if job_status_eq t s then n else get_count s rows

sum_counts : List JobStatus → StatusCounts → ℕ
unfolding get_count
sum_counts [] rows = 0
sum_counts (s ∷ ss) rows = get_count s rows + sum_counts ss rows

pub record StatsOut : Type 0 where
  pub sent : ℕ
  pub failed : ℕ
  pub queued : ℕ
  pub duplicates_blocked : ℕ

unfoldable pub compute_stats : Db → StatsOut
unfolding group_by_status get_count sum_counts
compute_stats db =
    let by_status = group_by_status db.jobs in
    record {
      sent = get_count JobStatus.delivered by_status;
      failed = get_count JobStatus.failed by_status;
      queued = sum_counts pending_job_statuses by_status;
      duplicates_blocked = Counters.get CounterKey.duplicates_blocked db;
    }

abbrev pub count_status : JobStatus → List DmJob → ℕ
count_status s = count_where (λ j. job_status_eq j.status s)

hit :
    (u s t n r : ℕ)
    → (u == t) ≡ true
    → (if u == s then n + 1 else r) ≡ (if u == s then n else r) + (if t == s then 1 else 0)
hit u s t n r e = ground arith

miss :
    (u s t n r q : ℕ)
    → (u == t) ≡ false
    → q ≡ r + (if t == s then 1 else 0)
    → (if u == s then n else q) ≡ (if u == s then n else r) + (if t == s then 1 else 0)
miss u s t n r q e h = ground arith

get-add_one :
    (s t : JobStatus) (rows : StatusCounts)
    → get_count s (add_one t rows) ≡ get_count s rows + (if job_status_eq t s then 1 else 0)
unfolding get_count add_one
get-add_one s t [] = omega arith
get-add_one s t ((u, n) ∷ rows) = elim (Bool-cases (job_status_eq u t)) [
  | inl e ↦
      rw e (hit (job_status_rank u) (job_status_rank s) (job_status_rank t) n (get_count s rows) e)
  | inr e ↦ rw e (
      miss (job_status_rank u) (job_status_rank s) (job_status_rank t) n (get_count s rows) _ e
        (get-add_one s t rows))
]

get_count-group :
    (s : JobStatus) (js : List DmJob) → get_count s (group_by_status js) ≡ count_status s js
unfolding get_count group_by_status
get_count-group s [] = refl
get_count-group s (j ∷ js) =
    omega (arith, get-add_one s j.status (group_by_status js), get_count-group s js)

one_status :
    (s : JobStatus)
    → (if job_status_eq s JobStatus.queued then 1 else 0)
        + (if job_status_eq s JobStatus.sending then 1 else 0)
        + (if job_status_eq s JobStatus.accepted then 1 else 0)
        + (if job_status_eq s JobStatus.retry_wait then 1 else 0)
        + (if job_status_eq s JobStatus.delivered then 1 else 0)
        + (if job_status_eq s JobStatus.failed then 1 else 0)
        + (if job_status_eq s JobStatus.cancelled then 1 else 0)
      ≡ 1
one_status JobStatus.queued = refl
one_status _ = refl

-- Every job is in one status.
statuses-partition :
    (js : List DmJob)
    → count_status JobStatus.queued js
        + count_status JobStatus.sending js
        + count_status JobStatus.accepted js
        + count_status JobStatus.retry_wait js
        + count_status JobStatus.delivered js
        + count_status JobStatus.failed js
        + count_status JobStatus.cancelled js
      ≡ length js
statuses-partition [] = refl
statuses-partition (j ∷ js) = omega (arith, statuses-partition js, one_status j.status)

pending_status :
    (s : JobStatus)
    → (if job_status_eq s JobStatus.queued then 1 else 0)
        + (if job_status_eq s JobStatus.sending then 1 else 0)
        + (if job_status_eq s JobStatus.accepted then 1 else 0)
        + (if job_status_eq s JobStatus.retry_wait then 1 else 0)
      ≡ (if job_status_in s pending_job_statuses then 1 else 0)
pending_status JobStatus.queued = refl
pending_status _ = refl

pending_counts :
    (js : List DmJob)
    → count_status JobStatus.queued js
        + count_status JobStatus.sending js
        + count_status JobStatus.accepted js
        + count_status JobStatus.retry_wait js
      ≡ count_where (λ j. job_status_in j.status pending_job_statuses) js
pending_counts [] = refl
pending_counts (j ∷ js) = omega (arith, pending_counts js, pending_status j.status)

-- `sent`, `failed` and `queued` are the numbers of jobs that are delivered, failed and pending, and
-- with the cancelled jobs they make up the table: no job is counted twice or left out.
pub compute_stats-counts :
    (db : Db)
    → let stats = compute_stats db in
      (stats.sent ≡ count_status JobStatus.delivered db.jobs)
      × (stats.failed ≡ count_status JobStatus.failed db.jobs)
      × (stats.queued ≡ count_where (λ j. job_status_in j.status pending_job_statuses) db.jobs)
      × (stats.sent + stats.failed + stats.queued + count_status JobStatus.cancelled db.jobs
          ≡ length db.jobs)
unfolding compute_stats
compute_stats-counts db = (
  get_count-group JobStatus.delivered db.jobs,
  get_count-group JobStatus.failed db.jobs,
  omega (get_count-group, arith, pending_counts db.jobs),
  omega (get_count-group, arith, statuses-partition db.jobs),
)
