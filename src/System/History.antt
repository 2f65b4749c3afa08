-- ===== src/System/History.antt =====
-- The states of System one after the other: any transactions, in any order.
use linkplease_tech_assignme.Base.{
  ℕ, ◌≡◌, ap, true, String, Option, some, ◌==◌, first_where-All, first_where-fits, subst, sym, none,
  refl,
}
use linkplease_tech_assignme.Config.{Settings}
use linkplease_tech_assignme.Models.{Db, Time, DmJob, Event, EventStatus}
use linkplease_tech_assignme.Jobs.Diagram.{
  Edges, Claimed, Cancelled, Released, Told, Polled, Unmoved, Released-Joins, Unmoved-Joins,
}
use linkplease_tech_assignme.Events.Processing.Recovery.{is_processing, requeue_stuck_is}
use linkplease_tech_assignme.Counters
use linkplease_tech_assignme.Counters.Laws.{seed_counters_frame}
use linkplease_tech_assignme.Jobs.{requeue_stale_sending, claim_next_job}
use linkplease_tech_assignme.Jobs.Outcomes.Budget.{awaits_send}
use linkplease_tech_assignme.Jobs.Recovery.{requeue_stale_frame}
use linkplease_tech_assignme.Jobs.Writes.{
  JobsWritten, claim_next_job-Extends, claim_next_job_frame, requeue_stale-Extends,
}
use linkplease_tech_assignme.Events.Processing.{requeue_stuck_events}
use linkplease_tech_assignme.Events.Processing.Keeps.{
  claim_pending_kept, process_event_kept, receive_again_kept,
}
use linkplease_tech_assignme.Reconciliation.Later.{apply_status-JobsWritten}
use linkplease_tech_assignme.RateLimiter.History.{warm_start_frame}
use linkplease_tech_assignme.Api.Rules.{created_frame}
use linkplease_tech_assignme.Api.Webhook.Laws.{webhook_frame}
use linkplease_tech_assignme.Workers.DmWorker.Sound.{Awaits, persist_frame}
use linkplease_tech_assignme.Workers.DmWorker.Later.{
  apply_result-JobsWritten, release_claim-JobsWritten,
}
use linkplease_tech_assignme.Workers.Manager.{requeue_stale, recover_state}
use linkplease_tech_assignme.System.{
  Reachable, step, State, Step, rule_created, webhook_received, events_claimed, event_processed,
  event_put_back, job_claimed, attempt_logged, reply_stored, claim_released, status_stored,
  stale_requeued, counters_seeded, limiter_started, late_release, restarted, crashed,
}
use linkplease_tech_assignme.System.Follows.{
  FreshIn, Follows, jobs-Follows, frame-Follows, grown-Follows, events-Follows, Follows-refl,
  Follows-trans, written-Follows, Closed-Follows,
}
use linkplease_tech_assignme.System.Invariant.{Holds, FlightAwaits}

-- Transactions from one state to another, without a crash.
pub data Runs (s : Settings) (lower : String → String) : State → State → Type 1 where
  no_more : (st : State) → Runs s lower st st
  and_then : (a b c : State) → Step s lower a b → Runs s lower b c → Runs s lower a c

pub single :
    {s : Settings} {lower : String → String} (a b : State) → Step s lower a b → Runs s lower a b
single a b e = and_then a b b e (no_more b)

pub Runs-append :
    {s : Settings} {lower : String → String} (a b c : State)
    → Runs s lower a b
    → Runs s lower b c
    → Runs s lower a c
Runs-append _ _ c (no_more st) q = q
Runs-append _ _ c (and_then x y z e p) q = and_then x y c e (Runs-append y z c p q)

pub Runs-Reachable :
    (s : Settings) (lower : String → String) (a c : State)
    → Reachable s lower a
    → Runs s lower a c
    → Reachable s lower c
Runs-Reachable s lower _ _ r (no_more st) = r
Runs-Reachable s lower _ _ r (and_then x y z e t) = Runs-Reachable s lower y z (step x y r e) t

-- Transactions and crashes.
pub data Steps (s : Settings) (lower : String → String) : State → State → Type 1 where
  run : (a c : State) → Runs s lower a c → Steps s lower a c
  crash_then :
      (a b c : State)
      → Runs s lower a b
      → Steps s lower (record b { in_flight = none }) c
      → Steps s lower a c

pub Steps-Reachable :
    (s : Settings) (lower : String → String) (a c : State)
    → Reachable s lower a
    → Steps s lower a c
    → Reachable s lower c
Steps-Reachable s lower _ _ r (run a c t) = Runs-Reachable s lower a c r t
Steps-Reachable s lower _ _ r (crash_then a b c t u) =
    Steps-Reachable s lower (record b { in_flight = none }) c
      (crashed b (Runs-Reachable s lower a b r t)) u

-- The edges of the diagram that a transaction may take the jobs along.
abbrev pub edges : {s : Settings} {lower : String → String} {a b : State} → Step s lower a b → Edges
edges (rule_created _ _ _ _ _ _ _) = Unmoved
edges (webhook_received _ _ _ _) = Unmoved
edges (events_claimed _ _) = Unmoved
edges (event_processed _ _ _) = Cancelled
edges (event_put_back _ _) = Unmoved
edges (job_claimed _ _ _ _ _ _) = Claimed
edges (attempt_logged _ _ _ _) = Unmoved
edges (reply_stored _ _ _ _ _ _ _) = Told
edges (claim_released _ _ _) = Released
edges (status_stored _ _ _ _ _ _ _) = Polled
edges (stale_requeued _ _ _) = Released
edges (counters_seeded _) = Unmoved
edges (limiter_started _ _ _ _) = Unmoved
edges (late_release _ _ _) = Released
edges (restarted _ _ _) = Released

jobs_written-Follows :
    (E : Edges) (db db' : Db) → JobsWritten E (FreshIn db) db db' → Follows E db db'
jobs_written-Follows E db db' w =
    jobs-Follows E db db' w.rows (ap (λ (d : Db). d.deleted_comments) w.frame)
      (ap (λ (d : Db). d.events) w.frame)

stale-Follows :
    (n : ℕ) (now stamp : Time) (db : Db)
    → Follows Released db (requeue_stale_sending n now stamp db).1
stale-Follows n now stamp db =
    jobs_written-Follows Released db (requeue_stale_sending n now stamp db).1 (record {
      rows = requeue_stale-Extends (FreshIn db) n now stamp db;
      frame = requeue_stale_frame n now stamp db;
    })

recover-Follows : (now stamp : Time) (db : Db) → Follows Released db (recover_state now stamp db)
unfolding recover_state
recover-Follows now stamp db =
    let seeded = Counters.seed_counters db in
    let frame = seed_counters_frame db in
    let requeued = (requeue_stuck_events seeded).1 in
    let trans = Follows-trans Released Released-Joins in
    trans db requeued (recover_state now stamp db)
      (trans db seeded requeued
        (frame-Follows Released db seeded (ap (λ (d : Db). d.jobs) frame)
          (ap (λ (d : Db). d.deleted_comments) frame) (ap (λ (d : Db). d.events) frame))
        (subst (Follows Released seeded) (sym (requeue_stuck_is seeded)) (
          events-Follows Released is_processing
            (λ (e : Event). record e { status = EventStatus.received }) seeded (λ e. refl))))
      (stale-Follows 0 now stamp requeued)

claim-Follows : (now stamp : Time) (db : Db) → Follows Claimed db (claim_next_job now stamp db).1
claim-Follows now stamp db =
    jobs_written-Follows Claimed db (claim_next_job now stamp db).1 (record {
      rows = claim_next_job-Extends (FreshIn db) now stamp db;
      frame = claim_next_job_frame now stamp db;
    })

flight-Awaits : (id : ℕ) (db : Db) → FlightAwaits (some id) db.jobs → Awaits id db
flight-Awaits id db a j found =
    first_where-All (λ (k : DmJob). (k.id == id) ≡ true → awaits_send k.status ≡ true)
      (λ (k : DmJob). k.id == id) db.jobs j a found
      (first_where-fits (λ (k : DmJob). k.id == id) db.jobs j found)

module _ (s : Settings) (lower : String → String) where
  pub Step-Follows :
      (st st' : State) (e : Step s lower st st') → Holds s st → Follows (edges e) st.db st'.db
  unfolding requeue_stale
  Step-Follows _ _ (rule_created id payload now st out db' e) v =
      let frame = created_frame lower id payload now st.db e in
      frame-Follows Unmoved st.db db' (ap (λ (d : Db). d.jobs) frame)
        (ap (λ (d : Db). d.deleted_comments) frame) (ap (λ (d : Db). d.events) frame)
  Step-Follows _ _ (webhook_received o now request st) v =
      let (frame, grown) = webhook_frame o s now request st.db in
      grown-Follows Unmoved st.db _ (ap (λ (d : Db). d.jobs) frame)
        (ap (λ (d : Db). d.deleted_comments) frame) grown
  Step-Follows _ _ (events_claimed limit st) v =
      claim_pending_kept (Follows Unmoved st.db) (written-Follows Unmoved Unmoved-Joins st.db) limit
        st.db (Follows-refl Unmoved st.db)
  Step-Follows _ _ (event_processed event now st) v =
      process_event_kept (Follows Cancelled st.db) (Closed-Follows st.db) lower event now st.db
        (Follows-refl Cancelled st.db)
  Step-Follows _ _ (event_put_back id st) v =
      receive_again_kept (Follows Unmoved st.db) (written-Follows Unmoved Unmoved-Joins st.db) id
        st.db (Follows-refl Unmoved st.db)
  Step-Follows _ _ (job_claimed now stamp db db' job e) v =
      subst (λ (x : Option DmJob × Db). Follows Claimed db x.1) e (claim-Follows now stamp db)
  Step-Follows _ _ (attempt_logged ok t l st) v =
      let frame = persist_frame ok t l st.db in
      frame-Follows Unmoved st.db _ (ap (λ (d : Db). d.jobs) frame)
        (ap (λ (d : Db). d.deleted_comments) frame) (ap (λ (d : Db). d.events) frame)
  Step-Follows _ _ (reply_stored draw id result now db db' e) v = jobs_written-Follows Told db db' (
      apply_result-JobsWritten (FreshIn db) s draw id result now db v.sound.table
        (flight-Awaits id db v.flight) e)
  Step-Follows _ _ (claim_released id now db) v =
      jobs_written-Follows Released db _
        (release_claim-JobsWritten (FreshIn db) id now db v.sound.table)
  Step-Follows _ _ (status_stored draw id status now st db' e) v =
      jobs_written-Follows Polled st.db db'
        (apply_status-JobsWritten (FreshIn st.db) s draw id status now st.db v.sound.table e)
  Step-Follows _ _ (stale_requeued now stamp st) v =
      stale-Follows s.sending_stale_seconds now stamp st.db
  Step-Follows _ _ (counters_seeded st) v =
      let frame = seed_counters_frame st.db in
      frame-Follows Unmoved st.db _ (ap (λ (d : Db). d.jobs) frame)
        (ap (λ (d : Db). d.deleted_comments) frame) (ap (λ (d : Db). d.events) frame)
  Step-Follows _ _ (limiter_started ok now l st) v =
      let frame = warm_start_frame ok now l st.db in
      frame-Follows Unmoved st.db _ (ap (λ (d : Db). d.jobs) frame)
        (ap (λ (d : Db). d.deleted_comments) frame) (ap (λ (d : Db). d.events) frame)
  Step-Follows _ _ (late_release id now db) v =
      jobs_written-Follows Released db _
        (release_claim-JobsWritten (FreshIn db) id now db v.sound.table)
  Step-Follows _ _ (restarted now stamp db) v = recover-Follows now stamp db
