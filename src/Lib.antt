-- ===== src/Lib.antt =====
-- A verification library for a service that answers comments with direct messages: webhooks report
-- comments, rules with keywords decide which comments get a DM, and background workers send the DMs
-- through a rate-limited API and follow their delivery.
--
-- The parts and how they interact. The receiver (api/webhook.py) authenticates a webhook and stores
-- its event (services/events.py). The event worker claims stored events and turns each into jobs, one
-- for each rule that matches (services/matching.py, services/jobs.py), or cancels the jobs of a deleted
-- comment. The DM worker (workers/dm_worker.py) claims one job at a time, waits for a slot of the rate
-- limiter (services/rate_limiter.py), sends through the client (services/pseudogram.py) and stores
-- what the reply means for the job. The reconciler (services/reconciliation.py) polls the delivery of
-- accepted jobs. All of them share the tables of app/models.py and nothing else.
--
-- Which file models which part, paths of the program from app/ on:
--   Config               config.py: the settings, their defaults, the secret for signatures
--   Database             database.py: the cached engine, its reset, session_scope; config.py: the cache of
--                        the settings
--   Models               models.py: the statuses, the rows, the tables (Db), the partial unique index
--   Models/Slots         what that index and the primary key demand of a list of jobs
--   IdempotencyKey       models.py: DMJob.idempotency_key
--   Counters             services/counters.py: seed_counters, increment, get
--   Matching             services/matching.py: all of it; api/rules.py is Api/Rules
--   Pseudogram           services/pseudogram.py: send_dm, get_dm_status and their helpers
--   Pseudogram/Connection  services/pseudogram.py: _get_client, aclose
--   Jobs                 services/jobs.py: create_job, cancel_jobs_for_comment, claim_next_job,
--                        requeue_stale_sending, backoff_delay
--   Jobs/Outcomes        services/jobs.py: apply_send_result, apply_delivery_status, their helpers, and
--                        the flush of a row
--   Jobs/Stats           services/jobs.py: compute_stats
--   RateLimiter          services/rate_limiter.py: the store and the limiter
--   Clock                clock.py: to_naive_utc, parse_iso8601
--   Events               services/events.py: ingest_event and the schemas of a webhook
--   Events/Processing    services/events.py: claiming and processing events, requeueing
--   Reconciliation       services/reconciliation.py
--   Security             security.py
--   Api/Webhook          api/webhook.py: receive_webhook
--   Api/Rules            api/rules.py: create_rule, list_rules
--   Workers/DmWorker     workers/dm_worker.py: one iteration, run_once
--   Workers/Manager      workers/manager.py: recover_state, _requeue_stale; workers/event_worker.py:
--                        run_once
--   Workers/Start        main.py: lifespan up to its yield; workers/manager.py: __init__, start
--   Workers/Shutdown     workers/manager.py: the tasks of start and stop; main.py: the end of lifespan
--   Workers/Loops        the four endless loops: run_forever of both workers, _reconcile_forever,
--                        _maintenance_forever
--   Jobs/Diagram         README.md, Job status machine: the edges between the statuses of a job
--   Mock                 scripts/mock_pseudogram.py: the stand-in for the API, its two endpoints
--   Mock/Simulation      scripts/mock_pseudogram.py: the payloads of _run_simulation, its tally, and the
--                        numbers that simulate_truth expects
--   TestWebhook          scripts/send_test_webhook.py: the requests that it makes and signs
--   Events/Received      the events of such a simulation in the tables, with its tally
--   System               all of it: the transactions of every session on one state, in any order
--   Base                 shared tests, lists, texts and the stable sort
--   Tests                sample rows and concrete runs
-- The modules below these hold lemmas and are named for what they show.
--
-- How the state corresponds. A table is the list of its rows in the order of the primary key, and Db
-- holds the tables and the next keys. An operation on a session is a function from Db to Db: one
-- transaction is atomic, as SQLite makes it, and a UPDATE with a WHERE is `update_where`. A function
-- that changes a loaded row is a function on the row, and `save_job` is the flush that follows. An
-- exception is `none` or a case of the result, and its transaction leaves Db as it was.
--
-- Times are whole microseconds from datetime.min, and durations whole microseconds. Functions that the
-- source does not contain are parameters: `lower` (str.lower), `from_iso` (datetime.fromisoformat),
-- `float`, the HMAC, json.loads and the validation by pydantic, the HTTP transport, and the draws of
-- the random generator. What other sessions do between the transactions of a worker is a parameter too
-- (`meanwhile`, `in_pause`); System makes them explicit as steps, with one DM worker, as the program
-- starts it. A batch of events is several transactions: its claim, and one for each event. System lets
-- the event worker process any event at any time, which is more than the program does, so that what holds
-- in System holds of every batch, interrupted ones too.
--
-- Fuel: `acquire` runs on one unit for each round of its loop, and one for each remembered grant and
-- one more are given: each round that sleeps lets the oldest grant leave the window. The clock of the
-- limiter is taken not to go back, which `time.time` does not promise. The digits of a
-- number n are found with the fuel n + 1, more than it has digits.
--
-- Loops: a loop is run on the list of the passes through its body up to the one before which the stop
-- event is set, so it needs no fuel; a pass is followed by a wait or not, or is cancelled.
--
-- Not modelled: waiting itself, and how a task is cancelled (asyncio); the set-up of the web framework
-- and the creation of the tables; the report of the mock and the counts of its HTTP replies; the remaining
-- scripts, which only call the two services and print; and the tests. An exception of the database
-- inside the release of a claim, and a cancellation of the DM worker inside its claim, are left out;
-- the maintenance timer is there for both.
pub mod Base
pub mod Config
pub mod Database
pub mod Models
pub mod Counters
pub mod Matching
pub mod Pseudogram
pub mod Jobs
pub mod RateLimiter
pub mod Clock
pub mod Events
pub mod IdempotencyKey
pub mod Reconciliation
pub mod Security
pub mod Api
pub mod Workers
pub mod Mock
pub mod TestWebhook
pub mod System
pub mod Tests
