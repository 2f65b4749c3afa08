-- ===== src/Events.antt =====
-- app/services/events.py: storing webhook events, and turning them into jobs. One transaction reads
-- the clock once, as `now`. `lower` is `str.lower`, and `from_iso` is `datetime.fromisoformat`.
pub mod Store
pub mod Ingest
pub mod Processing
pub mod Burst
pub mod Received
use linkplease_tech_assignme.Base.{
  ℕ, zero, suc, ◌+◌, Bool, true, false, not, ◌&&◌, ◌||◌, String, Option, none, some, List, [], ◌∷◌,
  ◌++◌, ◌==◌, str_eq, truthy, if◌then◌else◌, length, take, map, select_where, update_where,
  count_where, any_where, first_where, order_by, leb,
}
use linkplease_tech_assignme.Config.{Settings}
use linkplease_tech_assignme.Models.{
  Db, Time, Rule, Event, EventStatus, CounterKey, event_status_eq, DeletedComment,
}
use linkplease_tech_assignme.Clock.{Datetime, Parsed, parsed, overflow, parse_iso8601}
use linkplease_tech_assignme.Counters
use linkplease_tech_assignme.Matching.{find_matching_rules}
use linkplease_tech_assignme.Jobs.{create_job, cancel_jobs_for_comment}

abbrev pub event_comment_created : String
event_comment_created = "comment.created"

abbrev pub event_comment_deleted : String
event_comment_deleted = "comment.deleted"

-- app/schemas.py: the payload of a webhook.
pub record WebhookUser : Type 0 where
  pub user_id : Option String
  pub username : Option String

pub record WebhookData : Type 0 where
  pub comment_id : Option String
  pub post_id : Option String
  pub text : Option String
  pub created_at : Option String
  pub from_ : Option WebhookUser

pub record WebhookEvent : Type 0 where
  pub event_id : String
  pub event_type : String
  pub sent_at : Option String
  pub body : WebhookData

pub record IngestResult : Type 0 where
  pub duplicate : Bool
  pub event_pk : Option ℕ

abbrev pub sender_user_id : Option WebhookUser → Option String
sender_user_id none = none
sender_user_id (some u) = u.user_id

abbrev pub sender_username : Option WebhookUser → Option String
sender_username none = none
sender_username (some u) = u.username

unfoldable pub comment_is_deleted : String → Db → Bool
comment_is_deleted comment_id db =
    any_where (λ (c : DeletedComment). str_eq c.comment_id comment_id) db.deleted_comments

-- `comment_id and _comment_is_deleted(session, comment_id)`
unfoldable pub known_deleted : Option String → Db → Bool
unfolding comment_is_deleted
known_deleted none db = false
known_deleted (some c) db = truthy (some c) && comment_is_deleted c db

unfoldable pub new_event : ℕ → WebhookEvent → Option Time → Time → Event
new_event id payload sent_at now = record {
  id = id;
  event_id = payload.event_id;
  event_type = payload.event_type;
  comment_id = payload.body.comment_id;
  post_id = payload.body.post_id;
  user_id = sender_user_id payload.body.from_;
  username = sender_username payload.body.from_;
  text = payload.body.text;
  sent_at = sent_at;
  received_at = now;
  processed_at = none;
  status = EventStatus.received;
}

-- INSERT of an event. `none` is `IntegrityError`: UNIQUE(event_id).
pub insert_event : Event → Db → Option Db
insert_event event db =
    if any_where (λ (e : Event). str_eq e.event_id event.event_id) db.events
    then none
    else some (record db { events = db.events ++ event ∷ []; next_event_id = suc db.next_event_id })

module _ (lower : String → String) where
  -- The count of the deliveries that would have produced a DM, where the settings ask for it.
  blocked_rules : Settings → WebhookEvent → Db → ℕ
  unfolding known_deleted
  blocked_rules settings payload db =
      if not settings.count_duplicate_events_as_blocked
      then 0
      else if not (str_eq payload.event_type event_comment_created)
      then 0
      else if not (truthy (sender_user_id payload.body.from_))
      then 0
      else if known_deleted payload.body.comment_id db
      then 0
      else length (find_matching_rules lower payload.body.text db)

  -- `if blocked: increment(…)` is `increment`, which ignores 0 itself.
  pub handle_duplicate_event : WebhookEvent → Settings → Db → Db
  unfolding blocked_rules
  handle_duplicate_event payload settings db =
      let counted = Counters.increment CounterKey.duplicate_events 1 db in
      Counters.increment CounterKey.duplicates_blocked (blocked_rules settings payload counted)
        counted

  pub store_event : Settings → WebhookEvent → Option Time → Time → Db → IngestResult × Db
  unfolding insert_event new_event handle_duplicate_event
  store_event settings payload sent_at now db =
      elim (insert_event (new_event db.next_event_id payload sent_at now) db) [
        | none ↦ (
          record { duplicate = true; event_pk = none },
          handle_duplicate_event payload settings db,
        )
        | some db' ↦ (
          record { duplicate = false; event_pk = some db.next_event_id },
          Counters.increment CounterKey.events_received 1 db',
        )
      ]

  -- `none` is the `OverflowError` that `parse_iso8601` may raise.
  unfoldable pub ingest_event :
      (String → Option Datetime) → Settings → WebhookEvent → Time → Db → Option (IngestResult × Db)
  unfolding store_event
  ingest_event from_iso settings payload now db = elim (parse_iso8601 from_iso payload.sent_at) [
    | parsed sent_at ↦ some (store_event settings payload sent_at now db)
    | overflow ↦ none
  ]
