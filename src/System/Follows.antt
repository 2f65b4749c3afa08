-- ===== src/System/Follows.antt =====
-- The tables, and the same tables later: what one transaction after another makes of them.
use linkplease_tech_assignme.Base.{
  ◌≡◌, refl, sym, ap, ◌∙◌, Bool, true, false, String, Option, none, some, List, [], ◌∷◌, arith, inl,
  inr, Bool-cases, subst, str_eq, any_where, update_where, truthy, ◌&&◌, if◌then◌else◌,
}
use linkplease_tech_assignme.Models.{Db, Time, Event, JobStatus}
use linkplease_tech_assignme.Jobs.{create_job, cancel_jobs_for_comment}
use linkplease_tech_assignme.Jobs.Diagram.{Edges, Joins, Cancelled, Cancelled-Joins}
use linkplease_tech_assignme.Jobs.Later.{Extends, Extends-refl, Extends-trans, Extends-more}
use linkplease_tech_assignme.Jobs.Writes.{
  create_job-Extends, cancel_jobs-Extends, cancel_jobs_frame,
}
use linkplease_tech_assignme.Events.{comment_is_deleted, known_deleted}
use linkplease_tech_assignme.Events.Store.{is_stored}
use linkplease_tech_assignme.Events.Ingest.{
  EventsUnique, Grown, Grown-is_stored, Grown-EventsUnique,
}
use linkplease_tech_assignme.Events.Processing.{remember_deleted}
use linkplease_tech_assignme.Events.Processing.Keeps.{
  Closed, EventsWritten, create_job_frame, remember_deleted_frame, remembered_more,
}

-- A comment that no job may be made for from these tables on is not among these.
abbrev pub FreshIn : Db → Option String → Type 0
FreshIn db c = known_deleted c db ≡ false

-- The jobs took at most one edge of `E` each.
pub record Follows (E : Edges) (db db' : Db) : Type 0 where
  pub jobs : Extends E (FreshIn db) db.jobs db'.jobs
  pub deleted : (c : String) → comment_is_deleted c db ≡ true → comment_is_deleted c db' ≡ true
  pub stored : (id : String) → is_stored id db ≡ true → is_stored id db' ≡ true
  pub unique : EventsUnique db.events → EventsUnique db'.events

-- What was not known of a comment later was not known before.
FreshIn-earlier :
    (db db' : Db)
    → ((c : String) → comment_is_deleted c db ≡ true → comment_is_deleted c db' ≡ true)
    → (c : Option String) → FreshIn db' c
    → FreshIn db c
unfolding known_deleted
FreshIn-earlier db db' keep none f = refl
FreshIn-earlier db db' keep (some c) f = elim (Bool-cases (comment_is_deleted c db)) [
  | inl e ↦ let e' = keep c e in let f' : truthy (some c) && true ≡ false = rw e' at f in rw e f'
  | inr e ↦ rw e (ground arith)
]

-- A write to the jobs.
pub jobs-Follows :
    (E : Edges) (db db' : Db)
    → Extends E (FreshIn db) db.jobs db'.jobs
    → db'.deleted_comments ≡ db.deleted_comments
    → db'.events ≡ db.events
    → Follows E db db'
unfolding comment_is_deleted
jobs-Follows E db db' e d v = record {
  jobs = e;
  deleted = λ c k. rw d k;
  stored = λ id k. rw v k;
  unique = λ u. rw v u;
}

-- A write to other tables.
pub frame-Follows :
    (E : Edges) (db db' : Db)
    → db'.jobs ≡ db.jobs
    → db'.deleted_comments ≡ db.deleted_comments
    → db'.events ≡ db.events
    → Follows E db db'
frame-Follows E db db' j d v =
    jobs-Follows E db db'
      (subst (Extends E (FreshIn db) db.jobs) (sym j) (Extends-refl E (FreshIn db) db.jobs)) d v

pub Follows-refl : (E : Edges) (db : Db) → Follows E db db
Follows-refl E db = frame-Follows E db db refl refl refl

pub Follows-trans :
    (E : Edges) → Joins E → (a b c : Db) → Follows E a b → Follows E b c → Follows E a c
Follows-trans E joins a b c p q = record {
  jobs =
      Extends-trans E (FreshIn a) joins (FreshIn b) a.jobs b.jobs c.jobs
        (FreshIn-earlier a b p.deleted) p.jobs q.jobs;
  deleted = λ x k. q.deleted x (p.deleted x k);
  stored = λ id k. q.stored id (p.stored id k);
  unique = λ u. q.unique (p.unique u);
}

-- With more edges.
pub Follows-more :
    (E F : Edges) (a b : Db) → ((s t : JobStatus) → E s t → F s t) → Follows E a b → Follows F a b
Follows-more E F a b more p = record {
  jobs = Extends-more E F (FreshIn a) a.jobs b.jobs more p.jobs;
  deleted = p.deleted;
  stored = p.stored;
  unique = p.unique;
}

-- A webhook's write to the events.
pub grown-Follows :
    (E : Edges) (db db' : Db)
    → db'.jobs ≡ db.jobs
    → db'.deleted_comments ≡ db.deleted_comments
    → Grown db db'
    → Follows E db db'
unfolding comment_is_deleted
grown-Follows E db db' j d g = record {
  jobs = subst (Extends E (FreshIn db) db.jobs) (sym j) (Extends-refl E (FreshIn db) db.jobs);
  deleted = λ c k. rw d k;
  stored = λ id k. Grown-is_stored db db' id g k;
  unique = λ u. Grown-EventsUnique db db' g u;
}

remember-Follows :
    (E : Edges) (c : String) (now : Time) (db : Db) → Follows E db (remember_deleted c now db)
remember-Follows E c now db =
    let frame = remember_deleted_frame c now db in
    record {
      jobs =
          subst (Extends E (FreshIn db) db.jobs) (sym (ap (λ (d : Db). d.jobs) frame))
            (Extends-refl E (FreshIn db) db.jobs);
      deleted = remembered_more c now db;
      stored = λ id k. rw frame k;
      unique = λ u. rw frame u;
    }

any_updated :
    (id : String) (p : Event → Bool) (f : Event → Event) (es : List Event)
    → ((e : Event) → (f e).event_id ≡ e.event_id)
    → any_where (λ (e : Event). str_eq e.event_id id) (update_where p f es)
      ≡ any_where (λ (e : Event). str_eq e.event_id id) es
any_updated id p f [] same = refl
any_updated id p f (e ∷ es) same =
    ground (arith, ap (λ x. str_eq x id) (same e), any_updated id p f es same)

updated-EventsUnique :
    (p : Event → Bool) (f : Event → Event) (es : List Event)
    → ((e : Event) → (f e).event_id ≡ e.event_id)
    → EventsUnique es
    → EventsUnique (update_where p f es)
updated-EventsUnique p f [] same u = tt
updated-EventsUnique p f (e ∷ es) same u = (head (p e), updated-EventsUnique p f es same u.1)
  where
    head :
        (b : Bool)
        → any_where
            (λ (x : Event). str_eq x.event_id (if b then f e else e).event_id)
            (update_where p f es)
          ≡ false
    head true = rw (same e) (any_updated e.event_id p f es same ∙ u.0)
    head false = any_updated e.event_id p f es same ∙ u.0

events_only :
    (c : String) (db : Db) (es : List Event)
    → comment_is_deleted c db ≡ true
    → comment_is_deleted c (record db { events = es }) ≡ true
unfolding comment_is_deleted
events_only c db es k = k

-- A write to the events that keeps their `event_id`.
pub events-Follows :
    (E : Edges) (p : Event → Bool) (f : Event → Event) (db : Db)
    → ((e : Event) → (f e).event_id ≡ e.event_id)
    → Follows E db (record db { events = update_where p f db.events })
events-Follows E p f db same = record {
  jobs = Extends-refl E (FreshIn db) db.jobs;
  deleted = λ c k. events_only c db (update_where p f db.events) k;
  stored = λ id k. any_updated id p f db.events same ∙ k;
  unique = updated-EventsUnique p f db.events same;
}

pub written-Follows : (E : Edges) → Joins E → (start : Db) → EventsWritten (Follows E start)
written-Follows E joins start p f db same v =
    Follows-trans E joins start db (record db { events = update_where p f db.events }) v
      (events-Follows E p f db same)

-- The writes of the event worker, from the tables `start` on: it cancels jobs, and takes them along no
-- other edge.
pub Closed-Follows : (start : Db) → Closed (Follows Cancelled start)
Closed-Follows start = record {
  created = λ rule user comment now db k v.
      let frame = create_job_frame rule user comment now db in
      next db (create_job rule user comment now db).1 v (
        jobs-Follows Cancelled db (create_job rule user comment now db).1
          (create_job-Extends (FreshIn db) rule user comment now db k)
          (ap (λ (d : Db). d.deleted_comments) frame) (ap (λ (d : Db). d.events) frame));
  cancelled = λ comment now db v.
      let frame = cancel_jobs_frame comment now db in
      next db (cancel_jobs_for_comment comment now db).1 v (
        jobs-Follows Cancelled db (cancel_jobs_for_comment comment now db).1
          (cancel_jobs-Extends (FreshIn db) comment now db)
          (ap (λ (d : Db). d.deleted_comments) frame) (ap (λ (d : Db). d.events) frame));
  remembered = λ comment now db v.
      next db (remember_deleted comment now db) v (remember-Follows Cancelled comment now db);
  events_written = written-Follows Cancelled Cancelled-Joins start;
}
  where
    next :
        (db db' : Db)
        → Follows Cancelled start db
        → Follows Cancelled db db'
        → Follows Cancelled start db'
    next = Follows-trans Cancelled Cancelled-Joins start
