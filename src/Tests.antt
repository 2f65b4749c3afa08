-- ===== src/Tests.antt =====
-- Sample rows, tables and replies for the concrete runs.
pub mod Queue
pub mod Inbox
pub mod Limits
pub mod Sessions
pub mod Histories
pub mod Lives
pub mod Loops
pub mod Simulations
pub mod MockRuns
pub mod Endpoints
pub mod Batches
pub mod Headers
pub mod Engines
use linkplease_tech_assignme.Base.{
  ℕ, ◌≡◌, refl, true, false, str_eq, String, Option, none, some, List, [], ◌∷◌, arith,
}
use linkplease_tech_assignme.Config.{Settings, default_settings, second}
use linkplease_tech_assignme.Models.{
  Db, Time, Rule, DmJob, JobStatus, Event, EventStatus, empty_db, conflicts,
}
use linkplease_tech_assignme.Jobs.{create_job, new_job}
use linkplease_tech_assignme.Jobs.Table.{JobsValid}
use linkplease_tech_assignme.Jobs.Sound.{HasBudgets, IsSound, create_job-IsSound}
use linkplease_tech_assignme.Pseudogram.{SendOutcome, SendResult, finite}

abbrev pub promo_rule : Rule
promo_rule = record {
  id = "r1";
  keyword = "Promo";
  keyword_normalized = "promo";
  dm_message = "Here is your code";
  is_active = 1;
  created_at = 0;
}

abbrev pub rules_db : Db
rules_db = record empty_db { rules = promo_rule ∷ [] }

-- A job that waits for its first send.
abbrev pub queued_job : DmJob
queued_job = record {
  id = 1;
  rule_id = "r1";
  user_id = "u1";
  comment_id = some "c1";
  message = "Here is your code";
  status = JobStatus.queued;
  attempts = 0;
  transient_failures = 0;
  send_cycle = 0;
  dm_id = none;
  next_retry_at = none;
  last_error = none;
  last_status_check_at = none;
  created_at = 5;
  updated_at = 5;
}

-- A job of another user that waits until 9 for its second send.
abbrev pub waiting_job : DmJob
waiting_job = record queued_job {
  id = 2;
  user_id = "u2";
  status = JobStatus.retry_wait;
  attempts = 1;
  transient_failures = 1;
  next_retry_at = some 9;
}

abbrev pub accepted_job : DmJob
accepted_job = record queued_job {
  id = 3;
  user_id = "u3";
  status = JobStatus.accepted;
  attempts = 1;
  dm_id = some "d3";
}

abbrev pub jobs_db : Db
jobs_db = record rules_db { jobs = waiting_job ∷ accepted_job ∷ []; next_job_id = 4 }

pub budgets : HasBudgets default_settings
budgets = record { sends = omega arith; deliveries = omega arith }

pub jobs_db-IsSound : IsSound default_settings jobs_db
unfolding conflicts str_eq
jobs_db-IsSound = record {
  table = record { ascending = ground arith; below = ground arith; slots = (refl, (refl, tt)) };
  budgets = ground arith;
}

abbrev pub unavailable : SendResult
unavailable = record {
  outcome = SendOutcome.server_error;
  dm_id = none;
  status_code = some 503;
  retry_after = none;
  error = some "server_error_503";
}

abbrev pub comment_created : Event
comment_created = record {
  id = 1;
  event_id = "e1";
  event_type = "comment.created";
  comment_id = some "c7";
  post_id = none;
  user_id = some "u7";
  username = none;
  text = some "my promo please";
  sent_at = none;
  received_at = 0;
  processed_at = none;
  status = EventStatus.received;
}

abbrev pub comment_deleted : Event
comment_deleted = record comment_created {
  id = 2;
  event_id = "e2";
  event_type = "comment.deleted";
  user_id = none;
  text = none;
}

abbrev pub events_db : Db
events_db = record jobs_db { events = comment_created ∷ comment_deleted ∷ []; next_event_id = 3 }
