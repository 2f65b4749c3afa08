-- ===== src/Jobs/Outcomes.antt =====
-- app/services/jobs.py, second part: what a reply of the API does to a job. `none` is
-- `OverflowError`, raised where `now + timedelta(seconds=delay)` lies past the year 9999, or where the
-- backoff is too large for a float.
pub mod Budget
pub mod Effects
use linkplease_tech_assignme.Base.{
  ℕ, ◌+◌, Bool, false, not, String, Option, none, some, leb, str_eq, truthy, or_else, if◌then◌else◌,
  is_empty, take_chars, append_text,
}
use linkplease_tech_assignme.Config.{Settings}
use linkplease_tech_assignme.Models.{Db, Time, DmJob, JobStatus}
use linkplease_tech_assignme.Models.Slots.{replace, other_conflicts}
use linkplease_tech_assignme.Pseudogram.{SendOutcome, SendResult, Seconds, finite, infinite}
use linkplease_tech_assignme.Jobs.{max_error_length, backoff_delay}

-- `datetime.max`, 9999-12-31T23:59:59.999999, in microseconds from `datetime.min`.
abbrev pub max_time : Time
max_time = 315537897599999999

-- `now + timedelta(seconds=delay)`
pub add_seconds : Time → Seconds → Option Time
add_seconds now (finite d) = if leb (now + d) max_time then some (now + d) else none
add_seconds now infinite = none

-- `(error or "")[:MAX_ERROR_LENGTH] or None`
abbrev none_if_empty : String → Option String
none_if_empty s = if is_empty s then none else some s

pub clip_error : Option String → Option String
clip_error none = none
clip_error (some e) = none_if_empty (take_chars max_error_length e)

abbrev or_raise {ℓ κ} : {A : Type ℓ} {B : Type κ} → Option A → (A → B) → Option B
or_raise none f = none
or_raise (some a) f = some (f a)

pub schedule_retry : Seconds → Option String → Time → DmJob → Option DmJob
unfolding add_seconds clip_error
schedule_retry delay message now job = or_raise (add_seconds now delay) λ retry_at. record job {
  status = JobStatus.retry_wait;
  next_retry_at = some retry_at;
  last_error = clip_error message;
  updated_at = now;
}

-- After the backoff, if it could be computed.
schedule_backoff : Option ℕ → Option String → Time → DmJob → Option DmJob
unfolding schedule_retry
schedule_backoff none message now job = none
schedule_backoff (some delay) message now job = schedule_retry (finite delay) message now job

pub give_up : Option String → Time → DmJob → DmJob
unfolding clip_error
give_up message now job = record job {
  status = JobStatus.failed;
  next_retry_at = none;
  last_error = clip_error message;
  updated_at = now;
}

-- `draw` is the answer of the random generator.
pub handle_transient_failure : Settings → ℕ → Option String → Time → DmJob → Option DmJob
unfolding schedule_backoff give_up
handle_transient_failure settings draw message now job =
    let counted = record job {
      attempts = job.attempts + 1;
      transient_failures = job.transient_failures + 1;
    } in
    if leb settings.max_dm_attempts counted.transient_failures
    then some (give_up message now counted)
    else schedule_backoff (backoff_delay counted.transient_failures settings draw) message now
        counted

-- `str(outcome)`
abbrev outcome_str : SendOutcome → String
outcome_str SendOutcome.accepted = "accepted"
outcome_str SendOutcome.rate_limited = "rate_limited"
outcome_str SendOutcome.server_error = "server_error"
outcome_str SendOutcome.invalid = "invalid"
outcome_str SendOutcome.auth_error = "auth_error"
outcome_str SendOutcome.transport_error = "transport_error"
outcome_str SendOutcome.unexpected = "unexpected"

-- `f"{error}"` where `error` may be `None`
abbrev shown : Option String → String
shown none = "None"
shown (some e) = e

abbrev pub or_window : Option Seconds → Settings → Seconds
or_window none settings = finite settings.send_rate_limit_window_seconds
or_window (some d) settings = d

mark_accepted : Option String → Time → DmJob → DmJob
mark_accepted dm_id now job = record job {
  attempts = job.attempts + 1;
  transient_failures = 0;
  status = JobStatus.accepted;
  dm_id = dm_id;
  last_error = none;
  next_retry_at = none;
  updated_at = now;
}

-- The branches of `apply_send_result`.
send_branch : SendOutcome → Settings → ℕ → SendResult → Time → DmJob → Option DmJob
unfolding mark_accepted schedule_retry give_up handle_transient_failure
send_branch SendOutcome.accepted settings draw result now job =
    if not (truthy result.dm_id)
    then handle_transient_failure settings draw (some "accepted_without_dm_id") now job
    else some (mark_accepted result.dm_id now job)
send_branch SendOutcome.rate_limited settings draw result now job =
    schedule_retry (or_window result.retry_after settings) (some "rate_limited") now job
send_branch SendOutcome.auth_error settings draw result now job =
    schedule_retry (finite settings.auth_error_pause_seconds)
      (some (append_text "auth_error: " (shown result.error))) now job
send_branch SendOutcome.invalid settings draw result now job = some (
    give_up (or_else result.error (some "invalid_request")) now
      (record job { attempts = job.attempts + 1 }))
send_branch other settings draw result now job =
    handle_transient_failure settings draw (or_else result.error (some (outcome_str other))) now job

unfoldable pub apply_send_result : Settings → ℕ → SendResult → Time → DmJob → Option DmJob
unfolding send_branch
apply_send_result settings draw result now job =
    send_branch result.outcome settings draw result now job

mark_delivered : Time → DmJob → DmJob
mark_delivered now job = record job {
  last_status_check_at = some now;
  status = JobStatus.delivered;
  last_error = none;
  next_retry_at = none;
  updated_at = now;
}

-- A confirmed failure of the delivery.
delivery_failed : Settings → ℕ → Time → DmJob → Option DmJob
unfolding schedule_backoff give_up
delivery_failed settings draw now job =
    let counted = record job {
      last_status_check_at = some now;
      attempts = job.attempts + 1;
      send_cycle = job.send_cycle + 1;
      dm_id = none;
    } in
    if leb settings.max_delivery_attempts counted.send_cycle
    then some (give_up (some "delivery_failed") now counted)
    else schedule_backoff (backoff_delay counted.send_cycle settings draw) (some "delivery_failed")
        now (record counted { transient_failures = 0 })

abbrev status_is : Option String → String → Bool
status_is none t = false
status_is (some s) t = str_eq s t

unfoldable pub apply_delivery_status : Settings → ℕ → Option String → Time → DmJob → Option DmJob
unfolding mark_delivered delivery_failed
apply_delivery_status settings draw status now job =
    if status_is status "delivered"
    then some (mark_delivered now job)
    else if status_is status "failed"
    then delivery_failed settings draw now job
    else some (record job { last_status_check_at = some now; updated_at = now })

-- The flush of a job that was read, changed and not deleted meanwhile. `none` is `IntegrityError`:
-- the row would take a slot of the partial unique index that another row holds.
unfoldable pub save_job : DmJob → Db → Option Db
save_job job db =
    if other_conflicts job db.jobs then none else some (record db { jobs = replace job db.jobs })
