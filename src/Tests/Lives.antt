-- ===== src/Tests/Lives.antt =====
-- A job from its webhook to the deletion of its comment, and what comes after.
use linkplease_tech_assignme.Base.{
  ◌≡◌, refl, true, str_eq, sql_eq, contains, strip, is_prefix, String, some, none, count_where,
  List, [], ◌∷◌, All, ◌≤◌, ◌+◌, ◌*◌,
}
use linkplease_tech_assignme.Config.{signing_secret}
use linkplease_tech_assignme.Clock.{parse_iso8601}
use linkplease_tech_assignme.Models.{DmJob, JobStatus, Event, conflicts}
use linkplease_tech_assignme.Jobs.{job_by_id, create_job, insert_job, cancel_jobs_for_comment}
use linkplease_tech_assignme.Counters
use linkplease_tech_assignme.Matching.{find_matching_rules}
use linkplease_tech_assignme.Jobs.Diagram.{Cancelled, Leads}
use linkplease_tech_assignme.Security.{verify_signature, provided_digest}
use linkplease_tech_assignme.Events.{WebhookEvent, ingest_event, comment_is_deleted, known_deleted}
use linkplease_tech_assignme.Events.Store.{is_stored}
use linkplease_tech_assignme.Events.Ingest.{EventsUnique}
use linkplease_tech_assignme.Events.Processing.{process_event, claim_pending_events}
use linkplease_tech_assignme.Api.Webhook.{Outside, WebhookAck, acknowledged, receive_webhook}
use linkplease_tech_assignme.System.{
  State, empty_state, Step, rule_created, webhook_received, events_claimed, event_processed,
  Reachable, start, step,
}
use linkplease_tech_assignme.System.History.{Runs, and_then, single, Runs-Reachable, run}
use linkplease_tech_assignme.Jobs.Sound.{IsSound}
use linkplease_tech_assignme.System.Invariant.{is_for, Reachable-IsSound, one_job_per_user}
use linkplease_tech_assignme.Tests.{comment_created}
use linkplease_tech_assignme.System.Results.{
  jobs_follow_diagram, no_job_after_deletion, stored_once,
}
use linkplease_tech_assignme.Tests.Endpoints.{
  signed_settings, lowered, outside, request, sale, sale_out,
}
use linkplease_tech_assignme.Tests.Histories.{signed_budgets, ruled, rule_run}

abbrev pub webhook_of : String → String → String → WebhookEvent
webhook_of id kind user = record {
  event_id = id;
  event_type = kind;
  sent_at = none;
  body = record {
    comment_id = some "c9";
    post_id = none;
    text = some "sale";
    created_at = none;
    from_ = some (record { user_id = some user; username = none });
  };
}

abbrev pub sends : WebhookEvent → Outside
sends payload = record outside { validate = λ _. some payload }

abbrev pub first_comment : Outside
first_comment = sends (webhook_of "e1" "comment.created" "u1")

abbrev deletion : Outside
deletion = sends (webhook_of "e2" "comment.deleted" "u1")

abbrev late_comment : Outside
late_comment = sends (webhook_of "e3" "comment.created" "u2")

-- After a webhook, and after a batch of events.
abbrev pub received : Outside → State → State
received o st = record st { db = (receive_webhook o signed_settings 60 request st.db).1 }

abbrev claimed : State → State
claimed st = record st { db = (claim_pending_events 100 st.db).1 }

abbrev first_of : List Event → Event
first_of [] = comment_created
first_of (e ∷ es) = e

abbrev pub event_of : State → Event
event_of st = first_of (claim_pending_events 100 st.db).0

abbrev pub processed : State → State
processed st = record st { db = process_event lowered (event_of st) 70 (claimed st).db }

abbrev pub told : State
told = received first_comment ruled

abbrev pub busy : State
busy = processed told

abbrev deleted : State
deleted = processed (received deletion busy)

abbrev passed_over : State
passed_over = processed (received late_comment deleted)

told_reached : Reachable signed_settings lowered told
told_reached =
    step ruled told
      (step empty_state ruled start
        (rule_created "r2" sale 50 empty_state sale_out ruled.db rule_run))
      (webhook_received first_comment 60 request ruled)

batch : (st : State) → Runs signed_settings lowered st (processed st)
batch st =
    and_then st (claimed st) (processed st) (events_claimed 100 st)
      (single (claimed st) (processed st) (event_processed (event_of st) 70 (claimed st)))

round : (o : Outside) (st : State) → Runs signed_settings lowered st (processed (received o st))
round o st =
    and_then st (received o st) (processed (received o st)) (webhook_received o 60 request st)
      (batch (received o st))

pub busy_reached : Reachable signed_settings lowered busy
busy_reached = Runs-Reachable signed_settings lowered told busy told_reached (batch told)

deleted_reached : Reachable signed_settings lowered deleted
deleted_reached =
    Runs-Reachable signed_settings lowered busy deleted busy_reached (round deletion busy)

Reachable-IsSound_example : IsSound signed_settings busy.db
Reachable-IsSound_example =
    Reachable-IsSound signed_settings lowered signed_budgets busy busy_reached

one_job_per_user_example :
    (count_where (is_for "r2" "u1") busy.db.jobs ≤ 1)
    × All (λ (j : DmJob). j.attempts ≤ j.send_cycle + 5 * 5) busy.db.jobs
one_job_per_user_example =
    one_job_per_user signed_settings lowered signed_budgets busy "r2" "u1" busy_reached

abbrev first_job : DmJob
first_job = record {
  id = 1;
  rule_id = "r2";
  user_id = "u1";
  comment_id = some "c9";
  message = "Half price";
  status = JobStatus.queued;
  attempts = 0;
  transient_failures = 0;
  send_cycle = 0;
  dm_id = none;
  next_retry_at = none;
  last_error = none;
  last_status_check_at = none;
  created_at = 70;
  updated_at = 70;
}

job_made : job_by_id 1 busy.db ≡ some first_job
unfolding claim_pending_events receive_webhook ingest_event parse_iso8601 create_job conflicts
    known_deleted comment_is_deleted str_eq contains verify_signature signing_secret provided_digest
    strip is_prefix Counters.increment process_event find_matching_rules insert_job
    cancel_jobs_for_comment
job_made = refl

-- The state in which the event of the deletion is processed.
abbrev deleting : State
deleting = claimed (received deletion busy)

deleting_reached : Reachable signed_settings lowered deleting
deleting_reached =
    step (received deletion busy) deleting
      (step busy (received deletion busy) busy_reached (webhook_received deletion 60 request busy))
      (events_claimed 100 (received deletion busy))

job_waits : job_by_id 1 deleting.db ≡ some first_job
unfolding claim_pending_events receive_webhook ingest_event parse_iso8601 create_job conflicts
    known_deleted comment_is_deleted str_eq contains verify_signature signing_secret provided_digest
    strip is_prefix Counters.increment process_event find_matching_rules insert_job
    cancel_jobs_for_comment
job_waits = refl

abbrev last_step : Step signed_settings lowered deleting deleted
last_step = event_processed (event_of (received deletion busy)) 70 deleting

jobs_follow_diagram_example :
    (k : DmJob) × (job_by_id 1 deleted.db ≡ some k) × Leads Cancelled first_job k
jobs_follow_diagram_example =
    jobs_follow_diagram signed_settings lowered signed_budgets deleting deleted 1 first_job
      last_step deleting_reached job_waits

cancelled_job : job_by_id 1 deleted.db ≡ some (record first_job { status = JobStatus.cancelled })
unfolding claim_pending_events receive_webhook ingest_event parse_iso8601 create_job conflicts
    known_deleted comment_is_deleted str_eq contains verify_signature signing_secret provided_digest
    strip is_prefix Counters.increment process_event find_matching_rules insert_job
    cancel_jobs_for_comment
cancelled_job = refl

known : comment_is_deleted "c9" deleted.db ≡ true
unfolding claim_pending_events receive_webhook ingest_event parse_iso8601 create_job conflicts
    known_deleted comment_is_deleted str_eq contains verify_signature signing_secret provided_digest
    strip is_prefix Counters.increment process_event find_matching_rules insert_job
    cancel_jobs_for_comment
known = refl

no_job_after_deletion_example :
    (comment_is_deleted "c9" passed_over.db ≡ true)
    × (count_where (λ (j : DmJob). sql_eq j.comment_id "c9") passed_over.db.jobs
        ≡ count_where (λ (j : DmJob). sql_eq j.comment_id "c9") deleted.db.jobs)
no_job_after_deletion_example =
    no_job_after_deletion signed_settings lowered signed_budgets deleted passed_over "c9"
      deleted_reached (run deleted passed_over (round late_comment deleted)) refl known

abbrev again : WebhookAck
again = record { status = "duplicate"; event_id = "e1"; duplicate = true }

told_stored : is_stored "e1" told.db ≡ true
unfolding claim_pending_events receive_webhook ingest_event parse_iso8601 create_job conflicts
    known_deleted comment_is_deleted str_eq contains verify_signature signing_secret provided_digest
    strip is_prefix Counters.increment process_event find_matching_rules insert_job
    cancel_jobs_for_comment
told_stored = refl

answered_again :
    receive_webhook first_comment signed_settings 80 request busy.db
    ≡ (acknowledged again, (receive_webhook first_comment signed_settings 80 request busy.db).1)
unfolding claim_pending_events receive_webhook ingest_event parse_iso8601 create_job conflicts
    known_deleted comment_is_deleted str_eq contains verify_signature signing_secret provided_digest
    strip is_prefix Counters.increment process_event find_matching_rules insert_job
    cancel_jobs_for_comment
answered_again = refl

stored_once_example :
    EventsUnique busy.db.events
    × (again.duplicate ≡ true)
    × ((receive_webhook first_comment signed_settings 80 request busy.db).1.jobs ≡ busy.db.jobs)
stored_once_example =
    stored_once signed_settings lowered signed_budgets told busy first_comment 80 request again
      (receive_webhook first_comment signed_settings 80 request busy.db).1 told_reached
      (run told busy (batch told)) told_stored answered_again
