-- ===== src/Events/Processing.antt =====
-- app/services/events.py, second part: what the background worker does with stored events.
pub mod Deletion
pub mod Accounting
pub mod Keeps
pub mod Sound
pub mod Recovery
pub mod OneRule
pub mod Claiming
pub mod Dispatching
pub mod Batches
use linkplease_tech_assignme.Base.{
  ℕ, zero, suc, ◌+◌, Bool, true, false, not, ◌&&◌, ◌||◌, String, Option, none, some, List, [], ◌∷◌,
  ◌++◌, ◌==◌, str_eq, truthy, if◌then◌else◌, length, take, map, select_where, update_where,
  count_where, any_where, first_where, order_by, leb,
}
use linkplease_tech_assignme.Models.{
  Db, Time, Rule, Event, EventStatus, CounterKey, event_status_eq, DeletedComment,
}
use linkplease_tech_assignme.Matching.{find_matching_rules}
use linkplease_tech_assignme.Jobs.{create_job, cancel_jobs_for_comment}
use linkplease_tech_assignme.Events.{
  event_comment_created, event_comment_deleted, comment_is_deleted, known_deleted,
}

-- The loop over the matching rules.
pub create_jobs : List Rule → String → Option String → Time → Db → Db
create_jobs [] user_id comment_id now db = db
create_jobs (rule ∷ rules) user_id comment_id now db =
    create_jobs rules user_id comment_id now (create_job rule user_id comment_id now db).1

-- `session.add(DeletedComment(…))` under a savepoint: a duplicate key is passed over.
add_deleted : String → Time → Db → Db
unfolding comment_is_deleted
add_deleted comment_id now db = if comment_is_deleted comment_id db then db else record db {
  deleted_comments =
      db.deleted_comments ++ record { comment_id = comment_id; deleted_at = now } ∷ [];
}

pub remember_deleted : String → Time → Db → Db
remember_deleted comment_id now db =
    if comment_is_deleted comment_id db then db else add_deleted comment_id now db

-- The body for a `comment_id` that is not empty.
delete_comment : String → Time → Db → Db
unfolding remember_deleted
delete_comment comment_id now db =
    (cancel_jobs_for_comment comment_id now (remember_deleted comment_id now db)).1

pub process_comment_deleted : Event → Time → Db → EventStatus × Db
unfolding delete_comment
process_comment_deleted event now db = elim event.comment_id [
  | none ↦ (EventStatus.ignored, db)
  | some c ↦
      if truthy (some c)
      then (EventStatus.processed, delete_comment c now db)
      else (EventStatus.ignored, db)
]

-- The flush of `event.status` and `event.processed_at`.
pub finish_event : ℕ → EventStatus → Time → Db → Db
finish_event id status now db = record db {
  events =
      update_where (λ (e : Event). e.id == id)
        (λ e. record e { status = status; processed_at = some now }) db.events;
}

module _ (lower : String → String) where
  -- The body for the `user_id` of the event.
  created_by : String → Event → Time → Db → EventStatus × Db
  unfolding create_jobs
  created_by user_id event now db =
      if not (truthy (some user_id))
      then (EventStatus.ignored, db)
      else if known_deleted event.comment_id db
      then (EventStatus.ignored, db)
      else (
        EventStatus.processed,
        create_jobs (find_matching_rules lower event.text db) user_id event.comment_id now db,
      )

  pub process_comment_created : Event → Time → Db → EventStatus × Db
  unfolding created_by
  process_comment_created event now db = elim event.user_id [
    | none ↦ (EventStatus.ignored, db)
    | some user_id ↦ created_by user_id event now db
  ]

  pub dispatch : Event → Time → Db → EventStatus × Db
  unfolding process_comment_created process_comment_deleted
  dispatch event now db =
      if str_eq event.event_type event_comment_created
      then process_comment_created event now db
      else if str_eq event.event_type event_comment_deleted
      then process_comment_deleted event now db
      else (EventStatus.ignored, db)

  unfoldable pub process_event : Event → Time → Db → Db
  unfolding dispatch finish_event add_deleted
  process_event event now db =
      let (status, db') = dispatch event now db in finish_event event.id status now db'

set_event_status : EventStatus → (Event → Bool) → Db → Db
set_event_status status p db = record db {
  events = update_where p (λ e. record e { status = status }) db.events;
}

abbrev received_with : ℕ → Event → Bool
received_with id e = e.id == id && event_status_eq e.status EventStatus.received

abbrev id_le : Event → Event → Bool
id_le e f = leb e.id f.id

-- The conditional UPDATE of one event, and the row if it was changed.
claim_event : ℕ → Db → List Event × Db
unfolding set_event_status
claim_event id db =
    let marked = set_event_status EventStatus.processing (received_with id) db in
    if count_where (received_with id) db.events == 0
    then ([], db)
    else (select_where (λ (e : Event). e.id == id) marked.events, marked)

-- The loop of `claim_pending_events` over the keys it selected.
claim_events : List ℕ → Db → List Event × Db
unfolding claim_event
claim_events [] db = ([], db)
claim_events (id ∷ ids) db =
    let (here, db') = claim_event id db in
    let (later, db'') = claim_events ids db' in (here ++ later, db'')

received_ids : ℕ → Db → List ℕ
received_ids limit db =
    map (λ (e : Event). e.id)
      (take limit (
        order_by id_le
          (select_where (λ e. event_status_eq e.status EventStatus.received) db.events)))

unfoldable pub claim_pending_events : ℕ → Db → List Event × Db
unfolding claim_events received_ids
claim_pending_events limit db = claim_events (received_ids limit db) db

-- How the loop fares with an event: its transaction is committed; or the database raises in it, it is
-- rolled back, and the event is `received` again; or the write that puts it back raises as well, which
-- ends the batch.
pub data Fate : Type 0 where
  committed put_back lost : Fate

-- The write that puts an event back.
unfoldable pub receive_again : ℕ → Db → Db
unfolding set_event_status
receive_again id db = set_event_status EventStatus.received (λ (e : Event). e.id == id) db

abbrev one_counted : Option ℕ → Option ℕ
one_counted none = none
one_counted (some n) = some (suc n)

abbrev one_more : Option ℕ × Db → Option ℕ × Db
one_more x = (one_counted x.0, x.1)

-- The loop of `process_pending_events`. Each event is a transaction of its own, and `meanwhile` is what
-- the other sessions do before it. No count is an exception that leaves the batch.
pub process_all :
    (String → String) → (Event → Fate) → (ℕ → Db → Db) → Time → List Event → Db → Option ℕ × Db
unfolding receive_again
process_all lower fate meanwhile now [] db = (some 0, db)
process_all lower fate meanwhile now (event ∷ events) db =
    let db' = meanwhile event.id db in
    elim (fate event) [
      | Fate.committed ↦
          one_more (process_all lower fate meanwhile now events (process_event lower event now db'))
      | Fate.put_back ↦ process_all lower fate meanwhile now events (receive_again event.id db')
      | Fate.lost ↦ (none, db')
    ]

-- The claim of the batch is the first transaction.
unfoldable pub process_pending_events :
    (String → String) → (Event → Fate) → (ℕ → Db → Db) → Time → ℕ → Db → Option ℕ × Db
unfolding process_all claim_pending_events
process_pending_events lower fate meanwhile now limit db =
    let (events, db') = claim_pending_events limit db in
    process_all lower fate meanwhile now events db'

pub requeue_stuck_events : Db → ℕ × Db
unfolding set_event_status
requeue_stuck_events db = (
  count_where (λ e. event_status_eq e.status EventStatus.processing) db.events,
  set_event_status EventStatus.received (λ e. event_status_eq e.status EventStatus.processing) db,
)
