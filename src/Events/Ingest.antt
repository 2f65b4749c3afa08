-- ===== src/Events/Ingest.antt =====
-- app/services/events.py, ingest_event: an event that comes again, and the uniqueness of
-- `event_id`.
use linkplease_tech_assignme.Base.{
  text_tests, ◌≡◌, ◌⊎◌, arith, refl, sym, ap, ◌∙◌, true, false, String, Option, some, List, [], ◌∷◌,
  ◌++◌, str_eq, any_where, any_where-append, Bool-cases, inl, inr, subst,
}
use linkplease_tech_assignme.Config.{Settings}
use linkplease_tech_assignme.Models.{Db, Time, Event}
use linkplease_tech_assignme.Clock.{Datetime, parse_iso8601}
use linkplease_tech_assignme.Events.Store.{
  is_stored, store_cases, store_frame, store_stored, parsed_stores,
}
use linkplease_tech_assignme.Events.{
  WebhookEvent, IngestResult, new_event, store_event, ingest_event,
}

-- No two rows have one `event_id`.
abbrev pub EventsUnique : List Event → Type 0
EventsUnique [] = Unit {0}
EventsUnique (e ∷ es) =
    (any_where (λ (f : Event). str_eq f.event_id e.event_id) es ≡ false) × EventsUnique es

-- The events are those that were there, or one more, whose `event_id` was not among them.
abbrev pub Grown : Db → Db → Type 0
Grown db db' =
    (db'.events ≡ db.events)
    ⊎ ((e : Event) × (is_stored e.event_id db ≡ false) × (db'.events ≡ db.events ++ e ∷ []))

pub Grown-is_stored :
    (db db' : Db) (id : String) → Grown db db' → is_stored id db ≡ true → is_stored id db' ≡ true
Grown-is_stored db db' id (inl same) k = rw same k
Grown-is_stored db db' id (inr (e, _, more)) k =
    rw more
      (ground (arith, any_where-append (λ (f : Event). str_eq f.event_id id) db.events (e ∷ [])))

append-EventsUnique :
    (e : Event) (es : List Event)
    → any_where (λ (f : Event). str_eq f.event_id e.event_id) es ≡ false
    → EventsUnique es
    → EventsUnique (es ++ e ∷ [])
append-EventsUnique e [] free u = (refl, tt)
append-EventsUnique e (f ∷ fs) free u = grind (
  text_tests,
  any_where-append (λ (g : Event). str_eq g.event_id f.event_id) fs (e ∷ []),
  append-EventsUnique e fs,
)

pub Grown-EventsUnique :
    (db db' : Db) → Grown db db' → EventsUnique db.events → EventsUnique db'.events
Grown-EventsUnique db db' (inl same) u = rw same u
Grown-EventsUnique db db' (inr (e, free, more)) u = rw more (append-EventsUnique e db.events free u)

module _ (lower : String → String) where
  module _ (from_iso : String → Option Datetime) (s : Settings) where
    pub ingest_stores :
        (payload : WebhookEvent) (now : Time) (db : Db) (x : IngestResult × Db)
        → ingest_event lower from_iso s payload now db ≡ some x
        → (sent_at : Option Time) × (store_event lower s payload sent_at now db ≡ x)
    unfolding ingest_event
    ingest_stores payload now db x e =
        parsed_stores lower s payload now db (parse_iso8601 from_iso payload.sent_at) x e

    -- An event that comes a second time, with any other content, is answered as a duplicate, and the
    -- stored events and the jobs stay as they were.
    pub ingest_once :
        (payload payload' : WebhookEvent) (now now' : Time) (db : Db) (x y : IngestResult × Db)
        → payload'.event_id ≡ payload.event_id
        → ingest_event lower from_iso s payload now db ≡ some x
        → ingest_event lower from_iso s payload' now' x.1 ≡ some y
        → (y.0.duplicate ≡ true) × (y.1.events ≡ x.1.events) × (y.1.jobs ≡ x.1.jobs)
    ingest_once payload payload' now now' db x y same e e' =
        let (sent_at, first) = ingest_stores payload now db x e in
        let (sent_at', second) = ingest_stores payload' now' x.1 y e' in
        let stored : is_stored payload.event_id x.1 ≡ true =
          subst (λ (z : IngestResult × Db). is_stored payload.event_id z.1 ≡ true) first
            (store_stored lower s payload sent_at now db) in
        let known : is_stored payload'.event_id x.1 ≡ true = rw same stored in
        let (jobs, dup, events) = store_cases lower s payload' sent_at' now' x.1 in
        (
          ap (λ (z : IngestResult × Db). z.0.duplicate) (sym second) ∙ (dup ∙ known),
          ap (λ (z : IngestResult × Db). z.1.events) (sym second) ∙ (events ∙ rw known),
          ap (λ (z : IngestResult × Db). z.1.jobs) (sym second) ∙ jobs,
        )

    pub ingest-Grown :
        (payload : WebhookEvent) (now : Time) (db : Db) (x : IngestResult × Db)
        → ingest_event lower from_iso s payload now db ≡ some x
        → Grown db x.1
    unfolding new_event
    ingest-Grown payload now db x e =
        let (sent_at, first) = ingest_stores payload now db x e in
        let (_, _, events) = store_cases lower s payload sent_at now db in
        subst (λ (z : IngestResult × Db). Grown db z.1) first
          (elim (Bool-cases (is_stored payload.event_id db)) [
            | inl k ↦ inl (events ∙ rw k refl)
            | inr k ↦ inr (new_event db.next_event_id payload sent_at now, k, events ∙ rw k refl)
          ])

    -- Storing an event keeps the table free of two events of one `event_id`.
    pub ingest-EventsUnique :
        (payload : WebhookEvent) (now : Time) (db : Db) (x : IngestResult × Db)
        → EventsUnique db.events
        → ingest_event lower from_iso s payload now db ≡ some x
        → EventsUnique x.1.events
    ingest-EventsUnique payload now db x u e =
        Grown-EventsUnique db x.1 (ingest-Grown payload now db x e) u

    pub ingest-jobs :
        (payload : WebhookEvent) (now : Time) (db : Db) (x : IngestResult × Db)
        → ingest_event lower from_iso s payload now db ≡ some x
        → x.1.jobs ≡ db.jobs
    ingest-jobs payload now db x e =
        let (sent_at, first) = ingest_stores payload now db x e in
        let (jobs, _, _) = store_cases lower s payload sent_at now db in
        ap (λ (z : IngestResult × Db). z.1.jobs) (sym first) ∙ jobs

    -- What is answered is stored, and called a duplicate exactly when it was stored before.
    pub ingest-stored :
        (payload : WebhookEvent) (now : Time) (db : Db) (x : IngestResult × Db)
        → ingest_event lower from_iso s payload now db ≡ some x
        → (is_stored payload.event_id x.1 ≡ true) × (x.0.duplicate ≡ is_stored payload.event_id db)
    ingest-stored payload now db x e =
        let (sent_at, first) = ingest_stores payload now db x e in
        let (_, told, _) = store_cases lower s payload sent_at now db in
        (
          subst (λ (z : IngestResult × Db). is_stored payload.event_id z.1 ≡ true) first
              (store_stored lower s payload sent_at now db),
          ap (λ (z : IngestResult × Db). z.0.duplicate) (sym first) ∙ told,
        )

    -- It writes the events, their next key and the counters.
    pub ingest_frame :
        (payload : WebhookEvent) (now : Time) (db : Db) (x : IngestResult × Db)
        → ingest_event lower from_iso s payload now db ≡ some x
        → x.1 ≡ record db {
          events = x.1.events;
          next_event_id = x.1.next_event_id;
          counters = x.1.counters;
        }
    ingest_frame payload now db x e =
        let (sent_at, first) = ingest_stores payload now db x e in
        subst
          (λ (z : IngestResult × Db). z.1 ≡ record db {
            events = z.1.events;
            next_event_id = z.1.next_event_id;
            counters = z.1.counters;
          })
          first (store_frame lower s payload sent_at now db)
