-- ===== src/Workers/Loops.antt =====
-- The endless loops: DMWorker.run_forever and EventWorker.run_forever of app/workers, and
-- `_reconcile_forever` and `_maintenance_forever` of app/workers/manager.py. A loop is run on the list
-- of the passes through its body up to the one before which the stop event is found set.
use linkplease_tech_assignme.Base.{
  ℕ, suc, map, ◌/◌, ◌*◌, Bool, true, false, String, Option, none, some, List, [], ◌∷◌, ltb, max,
  if◌then◌else◌,
}
use linkplease_tech_assignme.Config.{Settings, second}
use linkplease_tech_assignme.Models.{Db, Time, Event}
use linkplease_tech_assignme.RateLimiter.{Limiter}
use linkplease_tech_assignme.Reconciliation
use linkplease_tech_assignme.Workers.DmWorker.{Surroundings, Course, Iteration, run_once}
use linkplease_tech_assignme.Workers.Manager.{run_events, requeue_stale}
use linkplease_tech_assignme.Events.Processing.{Fate}

-- How a pass ends: the next one follows at once, or after a wait; or the loop is cancelled.
pub data Pass (S : Type 0) : Type 0 where
  at_once after_wait cancelled : S → Pass S

-- What a loop leaves, how often it waited, and whether it was cancelled.
pub record Ended (S : Type 0) : Type 0 where
  pub state : S
  pub waits : ℕ
  pub by_cancel : Bool

abbrev one_more_wait : {S : Type 0} → Ended S → Ended S
one_more_wait e = record e { waits = suc e.waits }

unfoldable pub run_forever : {S : Type 0} → List (S → Pass S) → S → Ended S
run_forever [] x = record { state = x; waits = 0; by_cancel = false }
run_forever (pass ∷ passes) x = elim (pass x) [
  | at_once y ↦ run_forever passes y
  | after_wait y ↦ one_more_wait (run_forever passes y)
  | cancelled y ↦ record { state = y; waits = 0; by_cancel = true }
]

-- A pass of the DM worker: an iteration; one that a cancellation cut short, after its claim; or an
-- exception of the claim, which is logged.
pub data DmTurn : Type 0 where
  iteration cut : Surroundings → Course → DmTurn
  claim_failed : DmTurn

pub after_iteration : Iteration → Pass (Limiter × Db)
after_iteration it =
    if it.handled then at_once (it.limiter, it.db) else after_wait (it.limiter, it.db)

unfoldable pub dm_pass : Settings → DmTurn → Limiter × Db → Pass (Limiter × Db)
unfolding after_iteration
dm_pass settings (iteration w course) (l, db) = after_iteration (run_once settings w course l db)
dm_pass settings (cut w course) (l, db) =
    let it = run_once settings w course l db in cancelled (it.limiter, it.db)
dm_pass settings claim_failed (l, db) = after_wait (l, db)

-- A pass of the event worker: a batch at a time, in which some events may fail, and that the last of
-- them may end; or an exception of the batch before it claimed anything.
pub data EventTurn : Type 0 where
  batch : (Event → Fate) → (ℕ → Db → Db) → Time → EventTurn
  batch_failed : EventTurn

-- An exception counts as no event.
pub after_batch : Option ℕ × Db → Pass Db
after_batch (none, db) = after_wait db
after_batch (some handled, db) = if ltb handled 100 then after_wait db else at_once db

unfoldable pub event_pass : (String → String) → EventTurn → Db → Pass Db
unfolding after_batch
event_pass lower (batch fate meanwhile now) db =
    after_batch (run_events lower fate meanwhile now db)
event_pass lower batch_failed db = after_wait db

-- A pass of the reconciler: always a wait, whether the iteration came to its end or raised.
unfoldable pub reconcile_pass : Settings → Reconciliation.Surroundings → Db → Pass Db
reconcile_pass settings w db =
    after_wait (Reconciliation.db_after (Reconciliation.run_once settings w 50 db))

-- A pass of the maintenance: the clock of the query and that of the write, or an exception.
pub data MaintenanceTurn : Type 0 where
  requeue : Time → Time → MaintenanceTurn
  requeue_failed : MaintenanceTurn

unfoldable pub maintenance_pass : Settings → MaintenanceTurn → Db → Pass Db
maintenance_pass settings (requeue now stamp) db = after_wait (requeue_stale settings now stamp db)
maintenance_pass settings requeue_failed db = after_wait db

-- The waits of the loops of the manager.
pub reconcile_interval : Settings → ℕ
reconcile_interval settings = settings.delivery_poll_interval_seconds

pub maintenance_interval : Settings → ℕ
maintenance_interval settings = max (5 * second) (settings.sending_stale_seconds / 2)

-- The four loops. What the other sessions do before a pass is the first part of its entry.
unfoldable pub dm_loop : Settings → List ((Db → Db) × DmTurn) → Limiter × Db → Ended (Limiter × Db)
unfolding run_forever dm_pass
dm_loop settings turns = run_forever (
    map (λ (t : (Db → Db) × DmTurn). λ (x : Limiter × Db). dm_pass settings t.1 (x.0, t.0 x.1))
      turns)

unfoldable pub event_loop : (String → String) → List ((Db → Db) × EventTurn) → Db → Ended Db
unfolding run_forever event_pass
event_loop lower turns =
    run_forever (map (λ (t : (Db → Db) × EventTurn). λ db. event_pass lower t.1 (t.0 db)) turns)

unfoldable pub reconcile_loop :
    Settings → List ((Db → Db) × Reconciliation.Surroundings) → Db → Ended Db
unfolding run_forever reconcile_pass
reconcile_loop settings turns = run_forever (
    map
      (λ (t : (Db → Db) × Reconciliation.Surroundings). λ db. reconcile_pass settings t.1 (t.0 db))
      turns)

unfoldable pub maintenance_loop : Settings → List ((Db → Db) × MaintenanceTurn) → Db → Ended Db
unfolding run_forever maintenance_pass
maintenance_loop settings turns =
    run_forever (
      map (λ (t : (Db → Db) × MaintenanceTurn). λ db. maintenance_pass settings t.1 (t.0 db)) turns)
