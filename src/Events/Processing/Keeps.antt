-- ===== src/Events/Processing/Keeps.antt =====
-- app/services/events.py: processing, for any property of the tables that the writes to the
-- jobs keep.
use linkplease_tech_assignme.Base.{
  ℕ, ◌≡◌, refl, ap, ◌∙◌, update_where, Bool, false, none, String, Option, some, List, [], ◌∷◌,
  arith, truthy, str_eq, Bool-cases, Option-cases, inl, inr, count_where, ◌==◌, any_where-append,
  true,
}
use linkplease_tech_assignme.Models.{DeletedComment, Db, Time, Rule, Event, EventStatus, CounterKey}
use linkplease_tech_assignme.Counters
use linkplease_tech_assignme.Counters.Laws.{increment_frame}
use linkplease_tech_assignme.Jobs.Table.{insert_job-eq-some}
use linkplease_tech_assignme.Matching.{find_matching_rules}
use linkplease_tech_assignme.Jobs.{create_job, cancel_jobs_for_comment, insert_job, new_job}
use linkplease_tech_assignme.Events.{
  event_comment_created, event_comment_deleted, known_deleted, comment_is_deleted,
}
use linkplease_tech_assignme.Events.Processing.{
  create_jobs, add_deleted, remember_deleted, delete_comment, process_comment_deleted, created_by,
  process_comment_created, dispatch, finish_event, process_event, set_event_status, claim_event,
  claim_events, claim_pending_events, receive_again, received_with, received_ids,
}

-- What the property has to survive: the insertion of a job for a comment that is not known to be
-- deleted, the cancellation of jobs, a new record of a deleted comment, and the writes to the events.
pub record Closed (Inv : Db → Type 0) : Type 0 where
  pub created :
      (rule : Rule) (user : String) (comment : Option String) (now : Time) (db : Db)
      → known_deleted comment db ≡ false
      → Inv db
      → Inv (create_job rule user comment now db).1
  pub cancelled :
      (comment : String) (now : Time) (db : Db)
      → Inv db
      → Inv (cancel_jobs_for_comment comment now db).1
  pub remembered :
      (comment : String) (now : Time) (db : Db) → Inv db → Inv (remember_deleted comment now db)
  pub events_written :
      (p : Event → Bool) (f : Event → Event) (db : Db)
      → ((e : Event) → (f e).event_id ≡ e.event_id)
      → Inv db
      → Inv (record db { events = update_where p f db.events })

-- What a property of the jobs and their next key alone has to survive.
pub record JobsClosed (Inv : Db → Type 0) : Type 0 where
  pub framed :
      (db db' : Db) → db'.jobs ≡ db.jobs → db'.next_job_id ≡ db.next_job_id → Inv db → Inv db'
  pub created :
      (rule : Rule) (user : String) (comment : Option String) (now : Time) (db : Db)
      → Inv db
      → Inv (create_job rule user comment now db).1
  pub cancelled :
      (comment : String) (now : Time) (db : Db)
      → Inv db
      → Inv (cancel_jobs_for_comment comment now db).1

pub remember_deleted_frame :
    (c : String) (now : Time) (db : Db)
    → remember_deleted c now db
      ≡ record db { deleted_comments = (remember_deleted c now db).deleted_comments }
unfolding remember_deleted add_deleted
remember_deleted_frame c now db = ground arith

-- A comment on record as deleted stays so.
pub remembered_more :
    (comment : String) (now : Time) (db : Db) (c : String)
    → comment_is_deleted c db ≡ true
    → comment_is_deleted c (remember_deleted comment now db) ≡ true
unfolding remember_deleted add_deleted comment_is_deleted
remembered_more comment now db c k = ground (
  arith,
  any_where-append (λ (d : DeletedComment). str_eq d.comment_id c) db.deleted_comments
      (record { comment_id = comment; deleted_at = now } ∷ []),
)

pub closed_of_jobs : (Inv : Db → Type 0) → JobsClosed Inv → Closed Inv
closed_of_jobs Inv c = record {
  created = λ rule user comment now db _. c.created rule user comment now db;
  cancelled = c.cancelled;
  remembered = λ comment now db.
      c.framed db (remember_deleted comment now db)
        (ap (λ (d : Db). d.jobs) (remember_deleted_frame comment now db))
        (ap (λ (d : Db). d.next_job_id) (remember_deleted_frame comment now db));
  events_written =
      λ p f db _. c.framed db (record db { events = update_where p f db.events }) refl refl;
}

counted_frame :
    (k : CounterKey) (n : ℕ) (db : Db)
    → let db' = Counters.increment k n db in
      db' ≡ record db { jobs = db'.jobs; next_job_id = db'.next_job_id; counters = db'.counters }
counted_frame k n db = rw (increment_frame k n db) refl

-- A new job writes the jobs, their next key and the counters, and nothing else.
pub create_job_frame :
    (rule : Rule) (user : String) (comment : Option String) (now : Time) (db : Db)
    → let db' = (create_job rule user comment now db).1 in
      db' ≡ record db { jobs = db'.jobs; next_job_id = db'.next_job_id; counters = db'.counters }
unfolding create_job
create_job_frame rule user comment now db =
    elim (Option-cases (insert_job (new_job db.next_job_id rule user comment now) db)) [
      | inl e ↦ rw (e, create_job) (counted_frame CounterKey.duplicates_blocked 1 db)
      | inr (db', e) ↦
          let (_, _, same) =
            insert_job-eq-some (new_job db.next_job_id rule user comment now) db e in
          rw (e, create_job, same) refl
    ]

known_frame :
    (comment : Option String) (db db' : Db)
    → db'.deleted_comments ≡ db.deleted_comments
    → known_deleted comment db' ≡ known_deleted comment db
unfolding known_deleted comment_is_deleted
known_frame none db db' e = refl
known_frame (some c) db db' e = rw e

-- A property that the writes to the events keep.
abbrev pub EventsWritten : (Db → Type 0) → Type 0
EventsWritten Inv =
    (p : Event → Bool) (f : Event → Event) (db : Db)
    → ((e : Event) → (f e).event_id ≡ e.event_id)
    → Inv db
    → Inv (record db { events = update_where p f db.events })

module _ (Inv : Db → Type 0) (written : EventsWritten Inv) where
  set_status_kept :
      (status : EventStatus) (p : Event → Bool) (db : Db)
      → Inv db
      → Inv (set_event_status status p db)
  unfolding set_event_status
  set_status_kept status p db v =
      written p (λ (e : Event). record e { status = status }) db (λ e. refl) v

  pub receive_again_kept : (id : ℕ) (db : Db) → Inv db → Inv (receive_again id db)
  unfolding receive_again
  receive_again_kept id db v = set_status_kept EventStatus.received (λ e. e.id == id) db v

  claim_event_kept : (id : ℕ) (db : Db) → Inv db → Inv (claim_event id db).1
  unfolding claim_event
  claim_event_kept id db v = elim (Bool-cases (count_where (received_with id) db.events == 0)) [
    | inl e ↦ rw e v
    | inr e ↦ rw e (set_status_kept EventStatus.processing (received_with id) db v)
  ]

  claim_events_kept : (ids : List ℕ) (db : Db) → Inv db → Inv (claim_events ids db).1
  unfolding claim_events
  claim_events_kept [] db v = v
  claim_events_kept (id ∷ ids) db v =
      claim_events_kept ids (claim_event id db).1 (claim_event_kept id db v)

  pub claim_pending_kept : (limit : ℕ) (db : Db) → Inv db → Inv (claim_pending_events limit db).1
  unfolding claim_pending_events
  claim_pending_kept limit db v = claim_events_kept (received_ids limit db) db v

module _ (Inv : Db → Type 0) (closed : Closed Inv) where
  create_jobs_kept :
      (rules : List Rule) (user : String) (comment : Option String) (now : Time) (db : Db)
      → known_deleted comment db ≡ false
      → Inv db
      → Inv (create_jobs rules user comment now db)
  unfolding create_jobs
  create_jobs_kept [] user comment now db k v = v
  create_jobs_kept (r ∷ rs) user comment now db k v =
      let db' = (create_job r user comment now db).1 in
      create_jobs_kept rs user comment now db'
        (known_frame comment db db'
            (ap (λ (d : Db). d.deleted_comments) (create_job_frame r user comment now db))
          ∙ k)
        (closed.created r user comment now db k v)

  remember_kept : (c : String) (now : Time) (db : Db) → Inv db → Inv (remember_deleted c now db)
  remember_kept = closed.remembered

  delete_kept : (c : String) (now : Time) (db : Db) → Inv db → Inv (delete_comment c now db)
  unfolding delete_comment
  delete_kept c now db v =
      closed.cancelled c now (remember_deleted c now db) (remember_kept c now db v)

  deleted_kept :
      (event : Event) (now : Time) (db : Db) → Inv db → Inv (process_comment_deleted event now db).1
  unfolding process_comment_deleted
  deleted_kept event now db v = elim (Option-cases event.comment_id) [
    | inl e ↦ rw (e, process_comment_deleted) v
    | inr (c, e) ↦ elim (Bool-cases (truthy (some c))) [
      | inl t ↦ rw (e, process_comment_deleted) (rw t (delete_kept c now db v))
      | inr t ↦ rw (e, process_comment_deleted) (rw t v)
    ]
  ]

  finish_kept :
      (id : ℕ) (status : EventStatus) (now : Time) (db : Db)
      → Inv db
      → Inv (finish_event id status now db)
  unfolding finish_event
  finish_kept id status now db v =
      closed.events_written (λ (e : Event). e.id == id)
        (λ (e : Event). record e { status = status; processed_at = some now }) db (λ e. refl) v

  module _ (lower : String → String) where
    created_kept :
        (user : String) (event : Event) (now : Time) (db : Db)
        → Inv db
        → Inv (created_by lower user event now db).1
    unfolding created_by
    created_kept user event now db v = elim (Bool-cases (truthy (some user))) [
      | inl t ↦ elim (Bool-cases (known_deleted event.comment_id db)) [
        | inl k ↦ rw (t, k) v
        | inr k ↦
            rw (t, k)
              (create_jobs_kept (find_matching_rules lower event.text db) user event.comment_id now
                db k v)
      ]
      | inr t ↦ rw t v
    ]

    process_created_kept :
        (event : Event) (now : Time) (db : Db)
        → Inv db
        → Inv (process_comment_created lower event now db).1
    unfolding process_comment_created
    process_created_kept event now db v = elim (Option-cases event.user_id) [
      | inl e ↦ rw (e, process_comment_created) v
      | inr (user, e) ↦ rw (e, process_comment_created) (created_kept user event now db v)
    ]

    dispatch_kept :
        (event : Event) (now : Time) (db : Db) → Inv db → Inv (dispatch lower event now db).1
    unfolding dispatch
    dispatch_kept event now db v =
        elim (Bool-cases (str_eq event.event_type event_comment_created)) [
          | inl c ↦ rw c (process_created_kept event now db v)
          | inr c ↦ elim (Bool-cases (str_eq event.event_type event_comment_deleted)) [
            | inl d ↦ rw (c, d) (deleted_kept event now db v)
            | inr d ↦ rw (c, d) v
          ]
        ]

    pub process_event_kept :
        (event : Event) (now : Time) (db : Db) → Inv db → Inv (process_event lower event now db)
    unfolding process_event
    process_event_kept event now db v =
        finish_kept event.id (dispatch lower event now db).0 now (dispatch lower event now db).1
          (dispatch_kept event now db v)
