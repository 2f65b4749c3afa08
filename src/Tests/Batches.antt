-- ===== src/Tests/Batches.antt =====
-- A batch of two events, of which the second fails and is put back.
use linkplease_tech_assignme.Base.{ℕ, ◌≡◌, refl, sym, subst, false, All, ◌==◌, if◌then◌else◌}
use linkplease_tech_assignme.Models.{Db, Event, CounterKey}
use linkplease_tech_assignme.Counters
use linkplease_tech_assignme.Counters.Laws.{increment_frame}
use linkplease_tech_assignme.Events.Processing.{process_pending_events, claim_pending_events, Fate}
use linkplease_tech_assignme.Events.Processing.Batches.{
  NotHeld, LetsGo, is_lost, process_pending_events-LetsGo,
}
use linkplease_tech_assignme.Tests.{events_db}
use linkplease_tech_assignme.Tests.Endpoints.{lowered}

abbrev second_fails : Event → Fate
second_fails e = if e.id == 2 then Fate.put_back else Fate.committed

-- Before each event, the webhook counts a redelivery.
abbrev redelivery : ℕ → Db → Db
redelivery _ db = Counters.increment CounterKey.duplicate_events 1 db

redelivery_quiet : (x i : ℕ) (db : Db) → NotHeld i db → NotHeld i (redelivery x db)
redelivery_quiet x i db h =
    subst (NotHeld i) (sym (increment_frame CounterKey.duplicate_events 1 db)) h

none_lost : All (λ e. is_lost (second_fails e) ≡ false) (claim_pending_events 50 events_db).0
unfolding claim_pending_events
none_lost = (refl, (refl, tt))

process_pending_events-LetsGo_example :
    LetsGo second_fails
      (claim_pending_events 50 events_db).0
      (process_pending_events lowered second_fails redelivery 30 50 events_db)
process_pending_events-LetsGo_example =
    process_pending_events-LetsGo lowered second_fails redelivery redelivery_quiet 30 50 events_db
      none_lost
