-- ===== src/Models.antt =====
-- app/models.py: the statuses, the rows and the tables.
pub mod Slots
use linkplease_tech_assignme.Base.{
  ℕ, Bool, true, false, not, ◌||◌, ◌&&◌, String, Option, List, [], ◌∷◌, ◌==◌, str_eq,
}

-- A point in time, in microseconds: a naive UTC `datetime`, from `datetime.min` on, or a float of
-- `time.time`.
abbrev pub Time : Type 0
Time = ℕ

pub data EventStatus : Type 0 where
  received processing processed ignored : EventStatus

pub data JobStatus : Type 0 where
  queued sending accepted delivered retry_wait failed cancelled : JobStatus

abbrev pub event_status_rank : EventStatus → ℕ
event_status_rank EventStatus.received = 0
event_status_rank EventStatus.processing = 1
event_status_rank EventStatus.processed = 2
event_status_rank EventStatus.ignored = 3

abbrev pub job_status_rank : JobStatus → ℕ
job_status_rank JobStatus.queued = 0
job_status_rank JobStatus.sending = 1
job_status_rank JobStatus.accepted = 2
job_status_rank JobStatus.delivered = 3
job_status_rank JobStatus.retry_wait = 4
job_status_rank JobStatus.failed = 5
job_status_rank JobStatus.cancelled = 6

abbrev pub event_status_eq : EventStatus → EventStatus → Bool
event_status_eq s t = event_status_rank s == event_status_rank t

abbrev pub job_status_eq : JobStatus → JobStatus → Bool
job_status_eq s t = job_status_rank s == job_status_rank t

-- `DMJob.status.in_(…)`
abbrev pub job_status_in : JobStatus → List JobStatus → Bool
job_status_in s [] = false
job_status_in s (t ∷ ts) = job_status_eq s t || job_status_in s ts

-- `PENDING_JOB_STATUSES`
abbrev pub pending_job_statuses : List JobStatus
pending_job_statuses =
    JobStatus.queued ∷ JobStatus.sending ∷ JobStatus.accepted ∷ JobStatus.retry_wait ∷ []

-- `CANCELLABLE_JOB_STATUSES`
abbrev pub cancellable_job_statuses : List JobStatus
cancellable_job_statuses = JobStatus.queued ∷ JobStatus.retry_wait ∷ []

pub data CounterKey : Type 0 where
  duplicates_blocked duplicate_events events_received : CounterKey

-- `str(key)`
abbrev pub counter_key_str : CounterKey → String
counter_key_str CounterKey.duplicates_blocked = "duplicates_blocked"
counter_key_str CounterKey.duplicate_events = "duplicate_events"
counter_key_str CounterKey.events_received = "events_received"

pub record Rule : Type 0 where
  pub id : String
  pub keyword : String
  pub keyword_normalized : String
  pub dm_message : String
  pub is_active : ℕ
  pub created_at : Time

pub record Event : Type 0 where
  pub id : ℕ
  pub event_id : String
  pub event_type : String
  pub comment_id : Option String
  pub post_id : Option String
  pub user_id : Option String
  pub username : Option String
  pub text : Option String
  pub sent_at : Option Time
  pub received_at : Time
  pub processed_at : Option Time
  pub status : EventStatus

pub record DmJob : Type 0 where
  pub id : ℕ
  pub rule_id : String
  pub user_id : String
  pub comment_id : Option String
  pub message : String
  pub status : JobStatus
  pub attempts : ℕ
  pub transient_failures : ℕ
  pub send_cycle : ℕ
  pub dm_id : Option String
  pub next_retry_at : Option Time
  pub last_error : Option String
  pub last_status_check_at : Option Time
  pub created_at : Time
  pub updated_at : Time

pub record DeletedComment : Type 0 where
  pub comment_id : String
  pub deleted_at : Time

pub record Counter : Type 0 where
  pub key : String
  pub value : ℕ

pub record SendAttemptLog : Type 0 where
  pub id : ℕ
  pub ts : Time

-- The tables, each in the order of its primary key, and the key that the next row of a table with
-- `autoincrement` gets.
pub record Db : Type 0 where
  pub rules : List Rule
  pub events : List Event
  pub jobs : List DmJob
  pub deleted_comments : List DeletedComment
  pub counters : List Counter
  pub send_attempt_log : List SendAttemptLog
  pub next_event_id : ℕ
  pub next_job_id : ℕ
  pub next_attempt_id : ℕ

abbrev pub empty_db : Db
empty_db = record {
  rules = [];
  events = [];
  jobs = [];
  deleted_comments = [];
  counters = [];
  send_attempt_log = [];
  next_event_id = 1;
  next_job_id = 1;
  next_attempt_id = 1;
}

-- The rows that the partial index `uq_dm_jobs_rule_user` covers: `status != 'cancelled'`.
abbrev pub holds_slot : DmJob → Bool
holds_slot j = not (job_status_eq j.status JobStatus.cancelled)

-- Two rows that the index does not admit together.
unfoldable pub conflicts : DmJob → DmJob → Bool
conflicts j k =
    holds_slot j && holds_slot k && str_eq j.rule_id k.rule_id && str_eq j.user_id k.user_id
