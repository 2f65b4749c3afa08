-- ===== src/Events/Processing/Recovery.antt =====
-- app/services/events.py: the events after `requeue_stuck_events`.
use linkplease_tech_assignme.Base.{
  ◌≡◌, refl, Bool, false, List, [], ◌∷◌, All, update_where, Bool-cases, inl, inr,
}
use linkplease_tech_assignme.Models.{Db, Event, EventStatus, event_status_eq}
use linkplease_tech_assignme.Events.Processing.{set_event_status, requeue_stuck_events}

abbrev pub is_processing : Event → Bool
is_processing e = event_status_eq e.status EventStatus.processing

none_processing :
    (es : List Event)
    → All
        (λ e. is_processing e ≡ false)
        (update_where is_processing (λ e. record e { status = EventStatus.received }) es)
none_processing [] = tt
none_processing (e ∷ es) = elim (Bool-cases (is_processing e)) [
  | inl t ↦ rw t (refl, none_processing es)
  | inr t ↦ rw t (t, none_processing es)
]

pub requeue_stuck-none :
    (db : Db) → All (λ e. is_processing e ≡ false) (requeue_stuck_events db).1.events
unfolding requeue_stuck_events set_event_status
requeue_stuck-none db = none_processing db.events

-- It writes the events and nothing else.
pub requeue_stuck_frame :
    (db : Db)
    → (requeue_stuck_events db).1 ≡ record db { events = (requeue_stuck_events db).1.events }
unfolding requeue_stuck_events set_event_status
requeue_stuck_frame db = refl

pub requeue_stuck_is :
    (db : Db)
    → (requeue_stuck_events db).1 ≡ record db {
      events =
          update_where is_processing
            (λ (e : Event). record e { status = EventStatus.received })
            db.events;
    }
unfolding requeue_stuck_events set_event_status
requeue_stuck_is db = refl
