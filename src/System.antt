-- ===== src/System.antt =====
-- The whole program: the transactions of all sessions on the shared tables, in any order. There is one
-- DM worker, as workers/manager.py starts it; the job that it has claimed is in flight.
pub mod Invariant
pub mod Follows
pub mod History
pub mod Results
pub mod Workers
use linkplease_tech_assignme.Base.{ℕ, ◌≡◌, Bool, String, Option, none, some}
use linkplease_tech_assignme.Config.{Settings}
use linkplease_tech_assignme.Models.{Db, Time, DmJob, Event, empty_db}
use linkplease_tech_assignme.Pseudogram.{SendResult}
use linkplease_tech_assignme.RateLimiter.{Limiter, persist, warm_start}
use linkplease_tech_assignme.Counters.{seed_counters}
use linkplease_tech_assignme.Jobs.{claim_next_job}
use linkplease_tech_assignme.Events.Processing.{claim_pending_events, process_event, receive_again}
use linkplease_tech_assignme.Reconciliation.{apply_status}
use linkplease_tech_assignme.Api.Rules.{RuleCreate, RuleOut, made, create_rule}
use linkplease_tech_assignme.Api.Webhook.{Outside, Request, receive_webhook}
use linkplease_tech_assignme.Workers.DmWorker.{apply_result, release_claim}
use linkplease_tech_assignme.Workers.Manager.{recover_state, requeue_stale}

pub record State : Type 0 where
  pub db : Db
  pub in_flight : Option ℕ

abbrev pub empty_state : State
empty_state = record { db = empty_db; in_flight = none }

-- One transaction. A transaction that raises is rolled back and is no step. The event worker holds the
-- events of its batch, so the event that is processed may be any.
pub data Step (s : Settings) (lower : String → String) : State → State → Type 1 where
  rule_created :
      (id : String) (payload : RuleCreate) (now : Time) (st : State) (out : RuleOut) (db' : Db)
      → create_rule lower id payload now st.db ≡ made out db'
      → Step s lower st (record st { db = db' })
  webhook_received :
      (o : Outside) (now : Time) (request : Request) (st : State)
      → Step s lower st (record st { db = (receive_webhook o s now request st.db).1 })
  events_claimed :
      (limit : ℕ) (st : State)
      → Step s lower st (record st { db = (claim_pending_events limit st.db).1 })
  event_processed :
      (event : Event) (now : Time) (st : State)
      → Step s lower st (record st { db = process_event lower event now st.db })
  event_put_back :
      (id : ℕ) (st : State) → Step s lower st (record st { db = receive_again id st.db })
  job_claimed :
      (now stamp : Time) (db db' : Db) (job : DmJob)
      → claim_next_job now stamp db ≡ (some job, db')
      → Step s lower
          (record { db = db; in_flight = none })
          (record { db = db'; in_flight = some job.id })
  attempt_logged :
      (ok : Bool) (t : Time) (l : Limiter) (st : State)
      → Step s lower st (record st { db = persist ok t l st.db })
  reply_stored :
      (draw id : ℕ) (result : SendResult) (now : Time) (db db' : Db)
      → apply_result s draw id result now db ≡ some db'
      → Step s lower
          (record { db = db; in_flight = some id })
          (record { db = db'; in_flight = none })
  claim_released :
      (id : ℕ) (now : Time) (db : Db)
      → Step s lower
          (record { db = db; in_flight = some id })
          (record { db = release_claim id now db; in_flight = none })
  status_stored :
      (draw id : ℕ) (status : Option String) (now : Time) (st : State) (db' : Db)
      → apply_status s draw id status now st.db ≡ some db'
      → Step s lower st (record st { db = db' })
  stale_requeued :
      (now stamp : Time) (st : State)
      → Step s lower st (record st { db = requeue_stale s now stamp st.db })
  counters_seeded : (st : State) → Step s lower st (record st { db = seed_counters st.db })
  limiter_started :
      (ok : Bool) (now : Time) (l : Limiter) (st : State)
      → Step s lower st (record st { db = (warm_start ok now l st.db).1 })
  -- A claim that is released after the reply, in the pause: the job may be any.
  late_release :
      (id : ℕ) (now : Time) (db : Db)
      → Step s lower
          (record { db = db; in_flight = none })
          (record { db = release_claim id now db; in_flight = none })
  restarted :
      (now stamp : Time) (db : Db)
      → Step s lower
          (record { db = db; in_flight = none })
          (record { db = recover_state now stamp db; in_flight = none })

-- The states that the program reaches from empty tables. A crash ends the process: what was in flight is
-- lost, and the tables stay as they are.
pub data Reachable (s : Settings) (lower : String → String) : State → Type 1 where
  start : Reachable s lower empty_state
  step : (st st' : State) → Reachable s lower st → Step s lower st st' → Reachable s lower st'
  crashed : (st : State) → Reachable s lower st → Reachable s lower (record st { in_flight = none })
