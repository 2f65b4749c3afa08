-- ===== src/System/Results.antt =====
-- What holds from any state of System on, through any transactions.
use linkplease_tech_assignme.Base.{
  ℕ, ◌≡◌, refl, ◌∙◌, true, false, String, Option, none, some, truthy, sql_eq, count_where,
  Bool-cases, inl, inr, subst, str_eq, str_eq_iff, arith,
}
use linkplease_tech_assignme.Config.{Settings}
use linkplease_tech_assignme.Models.{Db, Time, DmJob, JobStatus}
use linkplease_tech_assignme.Jobs.{job_by_id}
use linkplease_tech_assignme.Jobs.Sound.{HasBudgets}
use linkplease_tech_assignme.Jobs.Diagram.{
  Claimed-Moved, Cancelled-Moved, Released-Moved, Told-Moved, Polled-Moved, Unmoved-Moved, Moved,
  Moved-Joins, Leads,
}
use linkplease_tech_assignme.Jobs.Later.{found-Extends, count-Extends}
use linkplease_tech_assignme.Events.{comment_is_deleted, known_deleted}
use linkplease_tech_assignme.Events.Store.{is_stored}
use linkplease_tech_assignme.Events.Ingest.{EventsUnique}
use linkplease_tech_assignme.Api.Webhook.{
  Outside, Request, WebhookAck, acknowledged, receive_webhook,
}
use linkplease_tech_assignme.Api.Webhook.Laws.{Answered, Stored, receive_webhook-Answered}
use linkplease_tech_assignme.System.{
  State, Step, rule_created, webhook_received, events_claimed, event_processed, event_put_back,
  job_claimed, attempt_logged, reply_stored, claim_released, status_stored, stale_requeued,
  counters_seeded, limiter_started, late_release, restarted, Reachable, start, step, crashed,
}
use linkplease_tech_assignme.System.Follows.{
  FreshIn, Follows, Follows-refl, Follows-trans, Follows-more,
}
use linkplease_tech_assignme.System.History.{
  Runs, no_more, and_then, Runs-Reachable, Steps, run, crash_then, edges, Step-Follows,
  Steps-Reachable,
}
use linkplease_tech_assignme.System.Invariant.{Reachable-Holds}

edges-Moved :
    {s : Settings} {lower : String → String} {a c : State} (e : Step s lower a c) (t u : JobStatus)
    → edges e t u
    → Moved t u
edges-Moved (rule_created _ _ _ _ _ _ _) = Unmoved-Moved
edges-Moved (webhook_received _ _ _ _) = Unmoved-Moved
edges-Moved (events_claimed _ _) = Unmoved-Moved
edges-Moved (event_processed _ _ _) = Cancelled-Moved
edges-Moved (event_put_back _ _) = Unmoved-Moved
edges-Moved (job_claimed _ _ _ _ _ _) = Claimed-Moved
edges-Moved (attempt_logged _ _ _ _) = Unmoved-Moved
edges-Moved (reply_stored _ _ _ _ _ _ _) = Told-Moved
edges-Moved (claim_released _ _ _) = Released-Moved
edges-Moved (status_stored _ _ _ _ _ _ _) = Polled-Moved
edges-Moved (stale_requeued _ _ _) = Released-Moved
edges-Moved (counters_seeded _) = Unmoved-Moved
edges-Moved (limiter_started _ _ _ _) = Unmoved-Moved
edges-Moved (late_release _ _ _) = Released-Moved
edges-Moved (restarted _ _ _) = Released-Moved

module _ (s : Settings) (lower : String → String) (b : HasBudgets s) where
  one_step :
      (a c : State) (e : Step s lower a c) → Reachable s lower a → Follows (edges e) a.db c.db
  one_step a c e r = Step-Follows s lower a c e (Reachable-Holds s lower b a r)

  Runs-Follows : (a c : State) → Runs s lower a c → Reachable s lower a → Follows Moved a.db c.db
  Runs-Follows _ _ (no_more st) r = Follows-refl Moved st.db
  Runs-Follows _ _ (and_then x y z e t) r =
      Follows-trans Moved Moved-Joins x.db y.db z.db
        (Follows-more (edges e) Moved x.db y.db (edges-Moved e) (one_step x y e r))
        (Runs-Follows y z t (step x y r e))

  later : (a c : State) → Reachable s lower a → Steps s lower a c → Follows Moved a.db c.db
  later _ _ r (run a c t) = Runs-Follows a c t r
  later _ _ r (crash_then a x c t u) =
      Follows-trans Moved Moved-Joins a.db x.db c.db (Runs-Follows a x t r)
        (later (record x { in_flight = none }) c (crashed x (Runs-Reachable s lower a x r t)) u)

  Reachable-EventsUnique : (st : State) → Reachable s lower st → EventsUnique st.db.events
  Reachable-EventsUnique _ start = tt
  Reachable-EventsUnique _ (step st st' r e) =
      (one_step st st' e r).unique (Reachable-EventsUnique st r)
  Reachable-EventsUnique _ (crashed st r) = Reachable-EventsUnique st r

-- Where the settings allow a send and a delivery, a job of a state that the program reaches is found
-- under its key after each transaction. It is the same job, its send cycle is no lower, and its status is
-- the old one or follows by one edge, which belongs to the kind of the transaction: a claim takes a job
-- from the queue or from its wait for a retry to `sending`; processing an event cancels jobs of these two
-- statuses; a release or a requeueing takes a job from `sending` back to the queue; a reply takes a job
-- that no reply has accepted or ended to accepted, to its wait, or to failed; a delivery status takes an
-- accepted job to delivered, to its wait, or to failed; and no other transaction moves a job. A job that
-- was delivered or had failed is unchanged.
pub jobs_follow_diagram :
    (s : Settings) (lower : String → String) (b : HasBudgets s) (st st' : State) (id : ℕ)
    (j : DmJob) (e : Step s lower st st')
    → Reachable s lower st
    → job_by_id id st.db ≡ some j
    → (k : DmJob) × (job_by_id id st'.db ≡ some k) × Leads (edges e) j k
jobs_follow_diagram s lower b st st' id j e r h =
    found-Extends (edges e) (FreshIn st.db) id st.db.jobs st'.db.jobs j
      (one_step s lower b st st' e r).jobs h

not_for_deleted :
    (c : String) (db : Db)
    → truthy (some c) ≡ true
    → comment_is_deleted c db ≡ true
    → (x : Option String) → FreshIn db x
    → sql_eq x c ≡ false
unfolding known_deleted
not_for_deleted c db t k none f = refl
not_for_deleted c db t k (some x) f = elim (Bool-cases (str_eq x c)) [
  | inl e ↦
      let same : x ≡ c = (str_eq_iff x c).0 e in
      let f' : known_deleted (some c) db ≡ false =
        subst (λ y. known_deleted (some y) db ≡ false) same f in
      absurd (ground (arith, f', t, k))
  | inr e ↦ e
]

-- Where the settings allow a send and a delivery, a comment that is on record as deleted in a state that
-- the program reaches stays so through any further transactions, and none of them adds a job for it.
pub no_job_after_deletion :
    (s : Settings) (lower : String → String) (b : HasBudgets s) (st st' : State) (c : String)
    → Reachable s lower st
    → Steps s lower st st'
    → truthy (some c) ≡ true
    → comment_is_deleted c st.db ≡ true
    → (comment_is_deleted c st'.db ≡ true)
      × (count_where (λ (j : DmJob). sql_eq j.comment_id c) st'.db.jobs
          ≡ count_where (λ (j : DmJob). sql_eq j.comment_id c) st.db.jobs)
no_job_after_deletion s lower b st st' c r t tr k =
    let f = later s lower b st st' r t in
    (
      f.deleted c k,
      count-Extends Moved (FreshIn st.db) (λ (x : Option String). sql_eq x c) st.db.jobs st'.db.jobs
          (not_for_deleted c st.db tr k) f.jobs,
    )

-- Where the settings allow a send and a delivery, after any transactions no two stored events have one
-- `event_id`, and an event that was stored at any time before, in a state that the program reaches, is
-- acknowledged as a duplicate, and touches no job.
pub stored_once :
    (s : Settings) (lower : String → String) (b : HasBudgets s) (st st' : State) (o : Outside)
    (now : Time) (request : Request) (a : WebhookAck) (db' : Db)
    → Reachable s lower st
    → Steps s lower st st'
    → is_stored a.event_id st.db ≡ true
    → receive_webhook o s now request st'.db ≡ (acknowledged a, db')
    → EventsUnique st'.db.events × (a.duplicate ≡ true) × (db'.jobs ≡ st'.db.jobs)
stored_once s lower b st st' o now request a db' r t k h =
    let f = later s lower b st st' r t in
    let told : Stored st'.db a db' =
      subst (Answered st'.db) h (receive_webhook-Answered o s now request st'.db) in
    (
      Reachable-EventsUnique s lower b st' (Steps-Reachable s lower st st' r t),
      told.told ∙ f.stored a.event_id k,
      told.jobs,
    )
