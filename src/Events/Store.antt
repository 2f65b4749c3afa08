-- ===== src/Events/Store.antt =====
-- app/services/events.py, ingest_event: the two outcomes of storing an event.
use linkplease_tech_assignme.Base.{
  suc, ◌≡◌, refl, ap, ◌∙◌, Bool, true, false, String, Option, none, some, [], ◌∷◌, ◌++◌, arith,
  str_eq, str_eq_refl, any_where, any_where-append, if◌then◌else◌, Bool-cases, inl, inr, not_none,
  some_eq,
}
use linkplease_tech_assignme.Config.{Settings}
use linkplease_tech_assignme.Models.{Db, Time, Event, CounterKey}
use linkplease_tech_assignme.Clock.{Parsed, parsed, overflow}
use linkplease_tech_assignme.Counters
use linkplease_tech_assignme.Counters.Laws.{increment_frame}
use linkplease_tech_assignme.Events.{
  WebhookEvent, IngestResult, new_event, insert_event, blocked_rules, handle_duplicate_event,
  store_event,
}

-- An event with this `event_id` is stored.
abbrev pub is_stored : String → Db → Bool
is_stored id db = any_where (λ (e : Event). str_eq e.event_id id) db.events

module _ (lower : String → String) where
  duplicate_frame :
      (payload : WebhookEvent) (s : Settings) (db : Db)
      → ((handle_duplicate_event lower payload s db).events ≡ db.events)
        × ((handle_duplicate_event lower payload s db).jobs ≡ db.jobs)
  unfolding handle_duplicate_event
  duplicate_frame payload s db =
      let counted = Counters.increment CounterKey.duplicate_events 1 db in
      let n = blocked_rules lower s payload counted in
      let outer = increment_frame CounterKey.duplicates_blocked n counted in
      let inner = increment_frame CounterKey.duplicate_events 1 db in
      (
        ap (λ (d : Db). d.events) outer ∙ ap (λ (d : Db). d.events) inner,
        ap (λ (d : Db). d.jobs) outer ∙ ap (λ (d : Db). d.jobs) inner,
      )

  pub store_known :
      (s : Settings) (payload : WebhookEvent) (sent_at : Option Time) (now : Time) (db : Db)
      → is_stored payload.event_id db ≡ true
      → store_event lower s payload sent_at now db
        ≡ (record { duplicate = true; event_pk = none }, handle_duplicate_event lower payload s db)
  unfolding store_event insert_event new_event
  store_known s payload sent_at now db k = rw (k, store_event)

  pub store_new :
      (s : Settings) (payload : WebhookEvent) (sent_at : Option Time) (now : Time) (db : Db)
      → is_stored payload.event_id db ≡ false
      → store_event lower s payload sent_at now db ≡ (
        record { duplicate = false; event_pk = some db.next_event_id },
        Counters.increment CounterKey.events_received 1 (record db {
          events = db.events ++ new_event db.next_event_id payload sent_at now ∷ [];
          next_event_id = suc db.next_event_id;
        }),
      )
  unfolding store_event insert_event new_event
  store_new s payload sent_at now db k = rw (k, store_event)

  -- What `store_event` has done to the events and the jobs.
  pub store_cases :
      (s : Settings) (payload : WebhookEvent) (sent_at : Option Time) (now : Time) (db : Db)
      → let (r, db') = store_event lower s payload sent_at now db in
        (db'.jobs ≡ db.jobs)
        × (r.duplicate ≡ is_stored payload.event_id db)
        × (db'.events ≡ (
            if is_stored payload.event_id db
            then db.events
            else db.events ++ new_event db.next_event_id payload sent_at now ∷ []))
  store_cases s payload sent_at now db = elim (Bool-cases (is_stored payload.event_id db)) [
    | inl k ↦
        rw (store_known s payload sent_at now db k, k)
          ((duplicate_frame payload s db).1, refl, (duplicate_frame payload s db).0)
    | inr k ↦
        let stored = record db {
          events = db.events ++ new_event db.next_event_id payload sent_at now ∷ [];
          next_event_id = suc db.next_event_id;
        } in
        rw (store_new s payload sent_at now db k, k)
          (
            ap (λ (d : Db). d.jobs) (increment_frame CounterKey.events_received 1 stored),
            refl,
            ap (λ (d : Db). d.events) (increment_frame CounterKey.events_received 1 stored),
          )
  ]

  pub duplicate_only_counts :
      (payload : WebhookEvent) (s : Settings) (db : Db)
      → let db' = handle_duplicate_event lower payload s db in
        db' ≡ record db { counters = db'.counters }
  unfolding handle_duplicate_event
  duplicate_only_counts payload s db =
      let counted = Counters.increment CounterKey.duplicate_events 1 db in
      rw
        (
          increment_frame CounterKey.duplicates_blocked (blocked_rules lower s payload counted)
              counted,
          increment_frame CounterKey.duplicate_events 1 db,
        )
        refl

  -- It writes the events, their next key and the counters, and nothing else.
  pub store_frame :
      (s : Settings) (payload : WebhookEvent) (sent_at : Option Time) (now : Time) (db : Db)
      → let db' = (store_event lower s payload sent_at now db).1 in
        db' ≡ record db {
          events = db'.events;
          next_event_id = db'.next_event_id;
          counters = db'.counters;
        }
  store_frame s payload sent_at now db = elim (Bool-cases (is_stored payload.event_id db)) [
    | inl k ↦
        rw (store_known s payload sent_at now db k) (rw (duplicate_only_counts payload s db) refl)
    | inr k ↦ rw (store_new s payload sent_at now db k) (
        rw
          (increment_frame CounterKey.events_received 1 (record db {
            events = db.events ++ new_event db.next_event_id payload sent_at now ∷ [];
            next_event_id = suc db.next_event_id;
          }))
          refl)
  ]

  pub store_stored :
      (s : Settings) (payload : WebhookEvent) (sent_at : Option Time) (now : Time) (db : Db)
      → is_stored payload.event_id (store_event lower s payload sent_at now db).1 ≡ true
  unfolding new_event
  store_stored s payload sent_at now db =
      let (_, _, events) = store_cases s payload sent_at now db in
      rw events (grown (is_stored payload.event_id db) refl)
    where
      grown :
          (b : Bool)
          → is_stored payload.event_id db ≡ b
          → any_where
              (λ (e : Event). str_eq e.event_id payload.event_id)
              (if b
                then db.events
                else db.events ++ new_event db.next_event_id payload sent_at now ∷ [])
            ≡ true
      grown true k = k
      grown false k = ground (
        arith,
        any_where-append (λ (e : Event). str_eq e.event_id payload.event_id) db.events
            (new_event db.next_event_id payload sent_at now ∷ []),
        str_eq_refl payload.event_id,
      )

  pub parsed_stores :
      (s : Settings) (payload : WebhookEvent) (now : Time) (db : Db) (q : Parsed)
      (x : IngestResult × Db)
      → elim q as (λ _. Option (IngestResult × Db)) [
        | parsed sent_at ↦ some (store_event lower s payload sent_at now db)
        | overflow ↦ none
      ]
        ≡ some x
      → (sent_at : Option Time) × (store_event lower s payload sent_at now db ≡ x)
  parsed_stores s payload now db (parsed sent_at) x e = (sent_at, some_eq e)
  parsed_stores s payload now db overflow x e = absurd (not_none e)
