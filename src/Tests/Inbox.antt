-- ===== src/Tests/Inbox.antt =====
-- Runs of the inbox of webhook events, and of the matching.
use linkplease_tech_assignme.Base.{
  ◌+◌, ◌≡◌, ◌↔◌, refl, true, false, str_eq, String, Option, none, some, [], ◌∷◌, codes, Occurs,
  truthy, length, select_where,
}
use linkplease_tech_assignme.Config.{default_settings}
use linkplease_tech_assignme.Models.{Db, Event, EventStatus}
use linkplease_tech_assignme.Clock.{Datetime, east, parse_iso8601}
use linkplease_tech_assignme.Counters
use linkplease_tech_assignme.Matching.{active_rules, text_matches, find_matching_rules}
use linkplease_tech_assignme.Matching.Laws.{text_matches_iff, find_matching_rules-eq-select}
use linkplease_tech_assignme.Events.{WebhookEvent, IngestResult, ingest_event, known_deleted}
use linkplease_tech_assignme.Events.Processing.{process_comment_created, process_event}
use linkplease_tech_assignme.Events.Processing.Accounting.{
  accounted, process_comment_created-accounts,
}
use linkplease_tech_assignme.Events.Processing.Deletion.{Creates, Deletes, deletion_any_order}
use linkplease_tech_assignme.Jobs.Cancel.{NothingToSend}
use linkplease_tech_assignme.Jobs.Sound.{IsSound, IsSound-frame}
use linkplease_tech_assignme.Tests.{
  rules_db, jobs_db, events_db, jobs_db-IsSound, comment_created, comment_deleted,
}

-- Texts that are in lower case already.
abbrev lowered : String → String
lowered s = s

-- No time is read, but for one text with the zone +05:30 half an hour into the year 1.
abbrev from_iso : String → Option Datetime
from_iso s = elim (str_eq s "0001-01-01T00:30+05:30") [
  | true ↦ some (record { local = 1800000000; tzinfo = some (east 19800000000) })
  | false ↦ none
]

events_db-IsSound : IsSound default_settings events_db
events_db-IsSound = IsSound-frame default_settings jobs_db events_db refl refl jobs_db-IsSound

creates : Creates "c7" comment_created
unfolding str_eq
creates = record { kind = refl; comment = refl }

deletes : Deletes "c7" comment_deleted
unfolding str_eq
deletes = record { kind = refl; comment = refl; given = refl }

deletion_any_order_example :
    NothingToSend "c7" (
      process_event lowered comment_deleted 31 (process_event lowered comment_created 30 events_db))
    × NothingToSend "c7" (
        process_event lowered comment_created 31
          (process_event lowered comment_deleted 30 events_db))
deletion_any_order_example =
    deletion_any_order lowered "c7" comment_created comment_deleted 30 31 events_db creates deletes

not_deleted : known_deleted (some "c7") events_db ≡ false
unfolding known_deleted
not_deleted = refl

process_comment_created-accounts_example :
    let (status, db') = process_comment_created lowered comment_created 30 events_db in
    (status ≡ EventStatus.processed)
    × (accounted db'
        ≡ accounted events_db
          + length (find_matching_rules lowered (some "my promo please") events_db))
process_comment_created-accounts_example =
    process_comment_created-accounts lowered comment_created "u7" 30 events_db refl refl not_deleted

abbrev payload : WebhookEvent
payload = record {
  event_id = "e9";
  event_type = "comment.created";
  sent_at = none;
  body = record {
    comment_id = some "c9";
    post_id = none;
    text = some "promo";
    created_at = none;
    from_ = none;
  };
}

abbrev stored_event : Event
stored_event = record {
  id = 1;
  event_id = "e9";
  event_type = "comment.created";
  comment_id = some "c9";
  post_id = none;
  user_id = none;
  username = none;
  text = some "promo";
  sent_at = none;
  received_at = 40;
  processed_at = none;
  status = EventStatus.received;
}

abbrev once_db : Db
once_db = record rules_db {
  events = stored_event ∷ [];
  next_event_id = 2;
  counters = record { key = "events_received"; value = 1 } ∷ [];
}

abbrev twice_db : Db
twice_db = record once_db {
  counters =
      record { key = "events_received"; value = 1 }
      ∷ record { key = "duplicate_events"; value = 1 }
      ∷ [];
}

abbrev first_result : IngestResult × Db
first_result = (record { duplicate = false; event_pk = some 1 }, once_db)

abbrev second_result : IngestResult × Db
second_result = (record { duplicate = true; event_pk = none }, twice_db)

first_ingest :
    ingest_event lowered from_iso default_settings payload 40 rules_db ≡ some first_result
unfolding ingest_event parse_iso8601 Counters.increment str_eq
first_ingest = refl

second_ingest :
    ingest_event lowered from_iso default_settings payload 41 once_db ≡ some second_result
unfolding ingest_event parse_iso8601 Counters.increment str_eq
second_ingest = refl

text_matches_iff_example : (text_matches lowered "promo" (some "a promo") ≡ true) ↔ (
    (truthy (some "promo") ≡ true)
    × (truthy (some "a promo") ≡ true)
    × Occurs (codes "promo") (codes "a promo"))
text_matches_iff_example = text_matches_iff lowered "promo" "a promo"

find_matching_rules-eq-select_example :
    find_matching_rules lowered (some "a promo") rules_db
    ≡ select_where
        (λ r. text_matches lowered r.keyword_normalized (some "a promo"))
        (active_rules rules_db)
find_matching_rules-eq-select_example =
    find_matching_rules-eq-select lowered (some "a promo") rules_db (refl, tt)
