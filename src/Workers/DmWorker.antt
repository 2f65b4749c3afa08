-- ===== src/Workers/DmWorker.antt =====
-- app/workers/dm_worker.py: one iteration of the worker that sends. What the other sessions do to the
-- tables between its claim and its last transaction is the parameter `meanwhile`, and in the pause after
-- the reply was stored, until the iteration is stopped there, `in_pause`.
pub mod Release
pub mod Sound
pub mod Later
pub mod Steps
use linkplease_tech_assignme.Base.{
  ℕ, suc, ◌+◌, Bool, true, false, not, String, Option, none, some, List, [], ◌∷◌, if◌then◌else◌,
  length,
}
use linkplease_tech_assignme.Config.{Settings}
use linkplease_tech_assignme.Models.{Db, Time, DmJob, JobStatus, job_status_eq}
use linkplease_tech_assignme.Models.Slots.{replace}
use linkplease_tech_assignme.Pseudogram.{
  Seconds, finite, SendOutcome, SendResult, SendRequest, FloatText, Reply, send_dm, configured,
}
use linkplease_tech_assignme.IdempotencyKey.{idempotency_key}
use linkplease_tech_assignme.RateLimiter.{
  Limiter, Acquired, got, raised, out_of_fuel, acquire, persist,
}
use linkplease_tech_assignme.Jobs.{job_by_id, claim_next_job}
use linkplease_tech_assignme.Jobs.Outcomes.{apply_send_result, save_job, or_window}

apply_to : Settings → ℕ → SendResult → Time → DmJob → Db → Option Db
apply_to settings draw result now job db = elim (apply_send_result settings draw result now job) [
  | none ↦ none
  | some job' ↦ save_job job' db
]

-- `_apply`. `none` is an exception, whose transaction is rolled back.
pub apply_result : Settings → ℕ → ℕ → SendResult → Time → Db → Option Db
unfolding apply_to
apply_result settings draw job_id result now db = elim (job_by_id job_id db) [
  | none ↦ some db
  | some job ↦ apply_to settings draw result now job db
]

release_job : Time → DmJob → Db → Db
release_job now job db =
    if job_status_eq job.status JobStatus.sending
    then record db {
      jobs = replace (record job { status = JobStatus.queued; updated_at = now }) db.jobs;
    }
    else db

-- `_release_claim`
pub release_claim : ℕ → Time → Db → Db
unfolding release_job
release_claim job_id now db = elim (job_by_id job_id db) [
  | none ↦ db
  | some job ↦ release_job now job db
]

-- How far an iteration gets: to its end, or to a cancellation or an exception that no reply explains,
-- before the slot of the limiter, before the reply, or in the pause after the reply was stored.
pub data Course : Type 0 where
  to_end stopped_before_slot stopped_before_reply stopped_in_pause : Course

-- The pause after the reply was stored.
pub pause_after : Settings → SendResult → Seconds
pause_after settings result = elim result.outcome [
  | SendOutcome.auth_error ↦ finite settings.auth_error_pause_seconds
  | SendOutcome.rate_limited ↦ or_window result.retry_after settings
  | _ ↦ finite 0
]

unfoldable pub request_of : DmJob → SendRequest
request_of job = record {
  recipient_user_id = job.user_id;
  message = job.message;
  comment_id = job.comment_id;
  idempotency_key = idempotency_key job;
}

-- The times that an iteration reads, and what it meets: the wake-ups of the limiter's sleeps, whether
-- the attempt could be logged, the answer of the random generator, and the API.
pub record Surroundings : Type 0 where
  pub now : Time
  pub claimed_at : Time
  pub asked_at : Time
  pub late : ℕ → ℕ
  pub logs : Bool
  pub transport : SendRequest → Reply
  pub float : String → FloatText
  pub draw : ℕ
  pub meanwhile : Db → Db
  pub in_pause : Db → Db
  pub replied_at : Time
  pub released_at : Time

-- What an iteration leaves: whether it handled a job, for how long it paused, and the state.
pub record Iteration : Type 0 where
  pub handled : Bool
  pub pause : Seconds
  pub limiter : Limiter
  pub db : Db

module _ (settings : Settings) (w : Surroundings) where
  released : ℕ → Limiter → Db → Iteration
  unfolding release_claim
  released job_id l db = record {
    handled = true;
    pause = finite 0;
    limiter = l;
    db = release_claim job_id w.released_at db;
  }

  after_store : Course → ℕ → SendResult → Limiter → Db → Iteration
  unfolding released pause_after
  after_store stopped_in_pause job_id result l db = released job_id l (w.in_pause db)
  after_store _ job_id result l db = record {
    handled = true;
    pause = pause_after settings result;
    limiter = l;
    db = db;
  }

  -- After the reply: `_apply`, and the pause.
  store_reply : Course → ℕ → SendResult → Limiter → Db → Iteration
  unfolding released apply_result after_store
  store_reply course job_id result l db =
      elim (apply_result settings w.draw job_id result w.replied_at db) [
        | none ↦ released job_id l db
        | some db' ↦ after_store course job_id result l db'
      ]

  -- With the slot granted at `t`.
  send_job : Course → DmJob → Time → Limiter → Db → Iteration
  unfolding released store_reply request_of
  send_job stopped_before_reply job t l db = released job.id l (w.meanwhile (persist w.logs t l db))
  send_job course job t l db =
      store_reply course job.id (send_dm w.float w.transport settings (request_of job)) l
        (w.meanwhile (persist w.logs t l db))

  -- What `acquire` came to.
  with_slot : Course → DmJob → Limiter → Db → Acquired → Iteration
  unfolding released send_job
  with_slot course job l db (got t l') = send_job course job t l' db
  with_slot course job l db raised = released job.id l (w.meanwhile db)
  with_slot course job l db out_of_fuel = released job.id l (w.meanwhile db)

  after_claim : Course → DmJob → Limiter → Db → Iteration
  unfolding released with_slot
  after_claim stopped_before_slot job l db = released job.id l (w.meanwhile db)
  after_claim course job l db =
      with_slot course job l db (acquire (length l.timestamps + 1) w.late w.asked_at l)

  idle : Limiter → Db → Iteration
  idle l db = record { handled = false; pause = finite 0; limiter = l; db = db }

  -- What the claim came to.
  with_claimed : Course → Limiter → Option DmJob × Db → Iteration
  unfolding idle after_claim
  with_claimed course l (none, db) = idle l db
  with_claimed course l (some job, db) = after_claim course job l db

  pub run_once : Course → Limiter → Db → Iteration
  unfolding idle with_claimed
  run_once course l db =
      if not (configured settings)
      then idle l db
      else with_claimed course l (claim_next_job w.now w.claimed_at db)
