-- ===== src/Events/Received/Keys.antt =====
-- app/services/events.py, ingest_event: the keys and the statuses of the events that only deliveries have
-- written.
use linkplease_tech_assignme.Base.{
  ℕ, suc, ◌<◌, refl, sym, String, Option, List, [], ◌∷◌, ◌++◌, arith, All, All-append, All-map,
  Bool-cases, inl, inr, subst,
}
use linkplease_tech_assignme.Config.{Settings}
use linkplease_tech_assignme.Models.{Db, Time, Event}
use linkplease_tech_assignme.Counters.Laws.{increment_frame}
use linkplease_tech_assignme.Models.{CounterKey}
use linkplease_tech_assignme.Events.{WebhookEvent, new_event, store_event}
use linkplease_tech_assignme.Events.Store.{is_stored, store_known, store_new, duplicate_only_counts}
use linkplease_tech_assignme.Events.Processing.Claiming.{Ascends, AllReceived, append-Ascends}

-- The events of these tables wait for a batch, with ascending keys below the next one.
pub record AreWaiting (events : List Event) (next : ℕ) : Type 0 where
  pub ascend : Ascends 0 events
  pub received : AllReceived events
  pub below : All (λ (e : Event). e.id < next) events

abbrev pub HasWaiting : Db → Type 0
HasWaiting db = AreWaiting db.events db.next_event_id

more-AreWaiting :
    (p : WebhookEvent) (sent : Option Time) (now : Time) (es : List Event) (next : ℕ)
    → AreWaiting es next
    → AreWaiting (es ++ new_event next p sent now ∷ []) (suc next)
unfolding new_event
more-AreWaiting p sent now es next w = record {
  ascend = append-Ascends 0 next es (new_event next p sent now) w.ascend w.below (omega arith) refl;
  received = All-append _ es (new_event next p sent now ∷ []) w.received (refl, tt);
  below =
      All-append (λ (e : Event). e.id < suc next) es (new_event next p sent now ∷ [])
        (All-map (λ e h. omega (arith, h)) es w.below) (omega arith, tt);
}

pub store-HasWaiting :
    (lower : String → String) (s : Settings) (p : WebhookEvent) (sent : Option Time) (now : Time)
    (db : Db)
    → HasWaiting db
    → HasWaiting (store_event lower s p sent now db).1
store-HasWaiting lower s p sent now db w = elim (Bool-cases (is_stored p.event_id db)) [
  | inl k ↦
      rw (store_known lower s p sent now db k)
        (subst HasWaiting (sym (duplicate_only_counts lower p s db)) w)
  | inr k ↦ rw (store_new lower s p sent now db k) (
      subst HasWaiting
        (sym (
          increment_frame CounterKey.events_received 1 (record db {
            events = db.events ++ new_event db.next_event_id p sent now ∷ [];
            next_event_id = suc db.next_event_id;
          })))
        (more-AreWaiting p sent now db.events db.next_event_id w))
]
