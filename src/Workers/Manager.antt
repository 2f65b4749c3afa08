-- ===== src/Workers/Manager.antt =====
-- app/workers/manager.py and app/workers/event_worker.py: what the process does to the tables at its
-- start, on its maintenance timer, and in an iteration of the event worker. The tasks themselves and
-- their shutdown belong to the event loop.
use linkplease_tech_assignme.Base.{
  ℕ, ◌≡◌, sym, ap, ◌∙◌, false, String, Option, All, update_where, subst,
}
use linkplease_tech_assignme.Config.{Settings}
use linkplease_tech_assignme.Models.{Db, Time, Event, EventStatus, CounterKey}
use linkplease_tech_assignme.Counters
use linkplease_tech_assignme.Counters.Laws.{get-seed_counters, seed_counters_frame, get_frame}
use linkplease_tech_assignme.Jobs.{stale, requeue_stale_sending}
use linkplease_tech_assignme.Jobs.Recovery.{requeue_stale-none, requeue_stale_frame}
use linkplease_tech_assignme.Jobs.Sound.{IsSound, IsSound-frame, requeue_stale-IsSound}
use linkplease_tech_assignme.Events.Processing.{process_pending_events, requeue_stuck_events, Fate}
use linkplease_tech_assignme.Events.Processing.Recovery.{
  is_processing, requeue_stuck-none, requeue_stuck_frame, requeue_stuck_is,
}

unfoldable pub recover_state : Time → Time → Db → Db
recover_state now stamp db =
    (requeue_stale_sending 0 now stamp (requeue_stuck_events (Counters.seed_counters db)).1).1

-- `_requeue_stale`
unfoldable pub requeue_stale : Settings → Time → Time → Db → Db
requeue_stale settings now stamp db =
    (requeue_stale_sending settings.sending_stale_seconds now stamp db).1

-- `EventWorker.run_once` with its batch of 100.
unfoldable pub run_events :
    (String → String) → (Event → Fate) → (ℕ → Db → Db) → Time → Db → Option ℕ × Db
run_events lower fate meanwhile now db = process_pending_events lower fate meanwhile now 100 db

-- The state that the workers start from.
pub record Recovered (s : Settings) (now : Time) (db db' : Db) : Type 0 where
  pub sound : IsSound s db'
  pub no_processing : All (λ e. is_processing e ≡ false) db'.events
  pub received_again :
      db'.events
      ≡ update_where is_processing (λ e. record e { status = EventStatus.received }) db.events
  pub no_stale : All (λ j. stale now 0 j ≡ false) db'.jobs
  pub counts : (k : CounterKey) → Counters.get k db' ≡ Counters.get k db

module _ (s : Settings) (now stamp : Time) (db : Db) where
  abbrev seeded : Db
  seeded = Counters.seed_counters db

  abbrev requeued : Db
  requeued = (requeue_stuck_events seeded).1

  seeded-IsSound : IsSound s db → IsSound s seeded
  seeded-IsSound v =
      IsSound-frame s db seeded (ap (λ (d : Db). d.jobs) (seed_counters_frame db))
        (ap (λ (d : Db). d.next_job_id) (seed_counters_frame db)) v

  requeued-IsSound : IsSound s db → IsSound s requeued
  requeued-IsSound v =
      IsSound-frame s seeded requeued (ap (λ (d : Db). d.jobs) (requeue_stuck_frame seeded))
        (ap (λ (d : Db). d.next_job_id) (requeue_stuck_frame seeded)) (seeded-IsSound v)

  recovered_counts :
      (k : CounterKey) → Counters.get k (recover_state now stamp db) ≡ Counters.get k db
  unfolding recover_state
  recovered_counts k =
      get_frame k requeued (recover_state now stamp db)
        (ap (λ (d : Db). d.counters) (requeue_stale_frame 0 now stamp requeued))
      ∙ (get_frame k seeded requeued (ap (λ (d : Db). d.counters) (requeue_stuck_frame seeded))
          ∙ get-seed_counters k db)

  recovered_events : All (λ e. is_processing e ≡ false) (recover_state now stamp db).events
  unfolding recover_state
  recovered_events =
      subst (All (λ e. is_processing e ≡ false))
        (sym (ap (λ (d : Db). d.events) (requeue_stale_frame 0 now stamp requeued)))
        (requeue_stuck-none seeded)

  received_events :
      (recover_state now stamp db).events
      ≡ update_where is_processing (λ e. record e { status = EventStatus.received }) db.events
  unfolding recover_state
  received_events =
      ap (λ (d : Db). d.events) (requeue_stale_frame 0 now stamp requeued)
      ∙ (ap (λ (d : Db). d.events) (requeue_stuck_is seeded)
          ∙ ap
              (λ (d : Db).
                update_where is_processing
                  (λ (e : Event). record e { status = EventStatus.received }) d.events)
              (seed_counters_frame db))

-- After the recovery no event is `processing`: those that were are `received` again, and nothing else of
-- the events has changed; no job that was last written before it is `sending`,
-- every counter reads as before, and the table of jobs is valid and within the budgets if it was.
pub recover_state-Recovered :
    (s : Settings) (now stamp : Time) (db : Db)
    → IsSound s db
    → Recovered s now db (recover_state now stamp db)
unfolding recover_state
recover_state-Recovered s now stamp db v = record {
  sound = requeue_stale-IsSound s 0 now stamp _ (requeued-IsSound s now stamp db v);
  no_processing = recovered_events s now stamp db;
  received_again = received_events s now stamp db;
  no_stale = requeue_stale-none 0 now stamp _;
  counts = recovered_counts s now stamp db;
}
