-- ===== src/Reconciliation.antt =====
-- app/services/reconciliation.py: polling the delivery status of the accepted jobs.
pub mod Laws
pub mod Flight
pub mod Later
use linkplease_tech_assignme.Base.{
  ℕ, suc, ◌+◌, Bool, true, false, not, ◌&&◌, String, Option, none, some, List, [], ◌∷◌,
  if◌then◌else◌, select_where, order_by, take, leb,
}
use linkplease_tech_assignme.Config.{Settings}
use linkplease_tech_assignme.Models.{Db, Time, DmJob, JobStatus, job_status_eq}
use linkplease_tech_assignme.Pseudogram.{StatusOutcome, StatusResult, Reply, get_dm_status}
use linkplease_tech_assignme.Jobs.{job_by_id}
use linkplease_tech_assignme.Jobs.Outcomes.{apply_delivery_status, save_job}

abbrev pub is_accepted : DmJob → Bool
is_accepted j = job_status_eq j.status JobStatus.accepted

-- The WHERE of `_load_pending`.
abbrev to_poll : DmJob → Bool
to_poll j = is_accepted j && elim j.dm_id [ none ↦ false | some _ ↦ true ]

-- The keys and the identifiers of the rows.
polls : List DmJob → List (ℕ × String)
polls [] = []
polls (j ∷ js) = elim j.dm_id [ none ↦ polls js | some d ↦ (j.id, d) ∷ polls js ]

pub load_pending : ℕ → Db → List (ℕ × String)
unfolding polls
load_pending batch_size db = polls (
    take batch_size
      (order_by (λ j k. leb j.updated_at k.updated_at) (select_where to_poll db.jobs)))

apply_to : Settings → ℕ → Option String → Time → DmJob → Db → Option Db
apply_to settings draw status now job db =
    elim (apply_delivery_status settings draw status now job) [
      | none ↦ none
      | some job' ↦ save_job job' db
    ]

checked_to : Settings → ℕ → Option String → Time → DmJob → Db → Option Db
unfolding apply_to
checked_to settings draw status now job db =
    if is_accepted job then apply_to settings draw status now job db else some db

-- `_apply`. `none` is an exception, whose transaction is rolled back.
pub apply_status : Settings → ℕ → ℕ → Option String → Time → Db → Option Db
unfolding checked_to
apply_status settings draw job_id status now db = elim (job_by_id job_id db) [
  | none ↦ some db
  | some job ↦ checked_to settings draw status now job db
]

-- How an iteration ends: the number of jobs it checked, or the exception of an `_apply`.
pub data Polled : Type 0 where
  checked : ℕ → Db → Polled
  raised : Db → Polled

-- The tables after it.
pub db_after : Polled → Db
db_after (checked n db) = db
db_after (raised db) = db

abbrev one_more : Polled → Polled
one_more (checked n db) = checked (suc n) db
one_more (raised db) = raised db

-- `random.random()`, the clock of the transactions, the API, and what the other sessions do to the
-- tables while the answer for a job is awaited.
pub record Surroundings : Type 0 where
  pub draw : ℕ → ℕ
  pub now : ℕ → Time
  pub transport : String → Reply
  pub meanwhile : ℕ → Db → Db

module _ (settings : Settings) (w : Surroundings) where
  -- What the status of the job `job_id` does to the tables.
  store_status : ℕ → StatusResult → Db → Option Db
  unfolding apply_status
  store_status job_id result db = elim result.outcome [
    | StatusOutcome.ok ↦
        apply_status settings (w.draw job_id) job_id result.status (w.now job_id) db
    | StatusOutcome.not_found ↦ some db
    | StatusOutcome.error ↦ some db
  ]

  go_on : (Db → Polled) → Db → Option Db → Polled
  go_on next db none = raised db
  go_on next db (some db') = one_more (next db')

  -- The loop of `run_once`.
  poll_all : List (ℕ × String) → Db → Polled
  unfolding store_status go_on
  poll_all [] db = checked 0 db
  poll_all ((job_id, dm_id) ∷ pending) db =
      let before = w.meanwhile job_id db in
      go_on (poll_all pending) before
        (store_status job_id (get_dm_status w.transport settings dm_id) before)

  pub run_once : ℕ → Db → Polled
  unfolding load_pending poll_all
  run_once batch_size db = poll_all (load_pending batch_size db) db
