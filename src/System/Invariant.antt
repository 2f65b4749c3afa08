-- ===== src/System/Invariant.antt =====
-- The invariant of the states of System.
use linkplease_tech_assignme.Base.{
  text_tests, ℕ, ◌≤◌, ◌≡◌, refl, sym, ap, Bool, true, false, ◌&&◌, String, Option, none, some, List,
  [], ◌∷◌, arith, All, count_where, any_where, str_eq, str_eq_iff, first_where-fits,
  first_where-All, subst, Bool-cases, inl, inr, ◌==◌, ◌+◌, ◌*◌, All-map,
}
use linkplease_tech_assignme.Config.{Settings}
use linkplease_tech_assignme.Models.{Db, DmJob, conflicts, holds_slot}
use linkplease_tech_assignme.Models.Slots.{SlotsUnique}
use linkplease_tech_assignme.Jobs.Flight.{
  AllAwait, create_job-AllAwait, cancel_jobs-AllAwait, requeue_stale-AllAwait, claimed-AllAwait,
}
use linkplease_tech_assignme.Jobs.Outcomes.Budget.{awaits_send, IsWithinBudget, attempts_bound}
use linkplease_tech_assignme.Jobs.Sound.{
  HasBudgets, IsSound, IsSound-frame, claim_next_job-IsSound, requeue_stale-IsSound,
}
use linkplease_tech_assignme.Events.Processing.Keeps.{
  Closed, JobsClosed, closed_of_jobs, claim_pending_kept, process_event_kept, receive_again_kept,
}
use linkplease_tech_assignme.Events.Processing.Sound.{IsSound-Closed}
use linkplease_tech_assignme.Reconciliation.Laws.{apply_status-IsSound}
use linkplease_tech_assignme.Reconciliation.Flight.{apply_status-AllAwait}
use linkplease_tech_assignme.Counters.Laws.{seed_counters_frame}
use linkplease_tech_assignme.RateLimiter.History.{warm_start_frame}
use linkplease_tech_assignme.Api.Rules.{created_frame}
use linkplease_tech_assignme.Api.Webhook.Laws.{webhook_frame}
use linkplease_tech_assignme.Workers.DmWorker.Sound.{
  release_claim-IsSound, apply_result-IsSound, persist_frame,
}
use linkplease_tech_assignme.Workers.Manager.{requeue_stale, recover_state-Recovered}
use linkplease_tech_assignme.System.{
  State, empty_state, Step, rule_created, webhook_received, events_claimed, event_processed,
  event_put_back, job_claimed, attempt_logged, reply_stored, claim_released, status_stored,
  stale_requeued, counters_seeded, limiter_started, late_release, restarted, crashed, Reachable,
  start, step,
}

-- The job in flight, if there is one, waits for the reply to its send.
abbrev pub FlightAwaits : Option ℕ → List DmJob → Type 0
FlightAwaits none js = Unit {0}
FlightAwaits (some id) js = AllAwait id js

pub record Holds (s : Settings) (st : State) : Type 0 where
  pub sound : IsSound s st.db
  pub flight : FlightAwaits st.in_flight st.db.jobs

AllAwait-JobsClosed : (id : ℕ) → JobsClosed (λ db. AllAwait id db.jobs)
AllAwait-JobsClosed id = record {
  framed = λ db db' e n a. rw e a;
  created = create_job-AllAwait id;
  cancelled = cancel_jobs-AllAwait id;
}

AllAwait-Closed : (id : ℕ) → Closed (λ db. AllAwait id db.jobs)
AllAwait-Closed id = closed_of_jobs (λ db. AllAwait id db.jobs) (AllAwait-JobsClosed id)

framed-Holds :
    (s : Settings) (st : State) (db' : Db)
    → db'.jobs ≡ st.db.jobs
    → db'.next_job_id ≡ st.db.next_job_id
    → Holds s st
    → Holds s (record st { db = db' })
framed-Holds s st db' e n v = record {
  sound = IsSound-frame s st.db db' e n v.sound;
  flight = subst (FlightAwaits st.in_flight) (sym e) v.flight;
}

-- A change that every job in flight survives.
changed-Holds :
    (s : Settings) (st : State) (db' : Db)
    → IsSound s db'
    → ((id : ℕ) → AllAwait id st.db.jobs → AllAwait id db'.jobs)
    → Holds s st
    → Holds s (record st { db = db' })
changed-Holds s st db' sound keep v = record { sound = sound; flight = kept st.in_flight v.flight }
  where
    kept : (f : Option ℕ) → FlightAwaits f st.db.jobs → FlightAwaits f db'.jobs
    kept none a = tt
    kept (some id) a = keep id a

pub crashed-Holds :
    (s : Settings) (st : State) → Holds s st → Holds s (record st { in_flight = none })
crashed-Holds s st v = record { sound = v.sound; flight = tt }

module _ (s : Settings) (lower : String → String) (b : HasBudgets s) where
  pub Step-Holds : (st st' : State) → Step s lower st st' → Holds s st → Holds s st'
  unfolding requeue_stale
  Step-Holds _ _ (rule_created id payload now st out db' e) v =
      let frame = created_frame lower id payload now st.db e in
      framed-Holds s st db' (ap (λ (d : Db). d.jobs) frame) (ap (λ (d : Db). d.next_job_id) frame) v
  Step-Holds _ _ (webhook_received o now request st) v =
      let (frame, _) = webhook_frame o s now request st.db in
      framed-Holds s st _ (ap (λ (d : Db). d.jobs) frame) (ap (λ (d : Db). d.next_job_id) frame) v
  Step-Holds _ _ (events_claimed limit st) v =
      changed-Holds s st _
        (claim_pending_kept (IsSound s) (IsSound-Closed s b).events_written limit st.db v.sound)
        (λ id a.
          claim_pending_kept (λ db. AllAwait id db.jobs) (AllAwait-Closed id).events_written limit
            st.db a)
        v
  Step-Holds _ _ (event_processed event now st) v =
      changed-Holds s st _
        (process_event_kept (IsSound s) (IsSound-Closed s b) lower event now st.db v.sound)
        (λ id a.
          process_event_kept (λ db. AllAwait id db.jobs) (AllAwait-Closed id) lower event now st.db
            a)
        v
  Step-Holds _ _ (event_put_back event st) v =
      changed-Holds s st _
        (receive_again_kept (IsSound s) (IsSound-Closed s b).events_written event st.db v.sound)
        (λ id a.
          receive_again_kept (λ db. AllAwait id db.jobs) (AllAwait-Closed id).events_written event
            st.db a)
        v
  Step-Holds _ _ (job_claimed now stamp db db' job e) v =
      let sound =
        subst (λ (x : Option DmJob × Db). IsSound s x.1) e
          (claim_next_job-IsSound s now stamp db v.sound) in
      record {
        sound = sound;
        flight = claimed-AllAwait now stamp db db' job v.sound.table sound.table e;
      }
  Step-Holds _ _ (attempt_logged ok t l st) v =
      framed-Holds s st _ (ap (λ (d : Db). d.jobs) (persist_frame ok t l st.db))
        (ap (λ (d : Db). d.next_job_id) (persist_frame ok t l st.db)) v
  Step-Holds _ _ (reply_stored draw id result now db db' e) v = record {
    sound =
        apply_result-IsSound s draw id result now db v.sound
          (λ j found.
            first_where-All (λ (k : DmJob). (k.id == id) ≡ true → awaits_send k.status ≡ true)
              (λ (k : DmJob). k.id == id) db.jobs j v.flight found
              (first_where-fits (λ (k : DmJob). k.id == id) db.jobs j found))
          e;
    flight = tt;
  }
  Step-Holds _ _ (claim_released id now db) v = record {
    sound = release_claim-IsSound s id now db v.sound;
    flight = tt;
  }
  Step-Holds _ _ (status_stored draw id status now st db' e) v =
      changed-Holds s st db' (apply_status-IsSound s b draw id status now st.db v.sound e)
        (λ f a. apply_status-AllAwait s draw id f status now st.db a e) v
  Step-Holds _ _ (stale_requeued now stamp st) v =
      changed-Holds s st (requeue_stale s now stamp st.db)
        (requeue_stale-IsSound s s.sending_stale_seconds now stamp st.db v.sound)
        (λ id a. requeue_stale-AllAwait id s.sending_stale_seconds now stamp st.db a) v
  Step-Holds _ _ (counters_seeded st) v =
      let frame = seed_counters_frame st.db in
      framed-Holds s st _ (ap (λ (d : Db). d.jobs) frame) (ap (λ (d : Db). d.next_job_id) frame) v
  Step-Holds _ _ (limiter_started ok now l st) v =
      let frame = warm_start_frame ok now l st.db in
      framed-Holds s st _ (ap (λ (d : Db). d.jobs) frame) (ap (λ (d : Db). d.next_job_id) frame) v
  Step-Holds _ _ (late_release id now db) v = record {
    sound = release_claim-IsSound s id now db v.sound;
    flight = tt;
  }
  Step-Holds _ _ (restarted now stamp db) v = record {
    sound = (recover_state-Recovered s now stamp db v.sound).sound;
    flight = tt;
  }

  empty-Holds : Holds s empty_state
  empty-Holds = record {
    sound = record { table = record { ascending = tt; below = tt; slots = tt }; budgets = tt };
    flight = tt;
  }

  pub Reachable-Holds : (st : State) → Reachable s lower st → Holds s st
  Reachable-Holds _ start = empty-Holds
  Reachable-Holds _ (step st st' r e) = Step-Holds st st' e (Reachable-Holds st r)
  Reachable-Holds _ (crashed st r) = crashed-Holds s st (Reachable-Holds st r)

  -- Where the settings allow a send and a delivery, in every state that the program reaches from empty
  -- tables the table of jobs is valid and every job within its budgets, in whichever order the
  -- transactions come, crashes and restarts included.
  pub Reachable-IsSound : (st : State) → Reachable s lower st → IsSound s st.db
  Reachable-IsSound st r = (Reachable-Holds st r).sound

-- A job of this rule and this user that is not cancelled.
abbrev pub is_for : String → String → DmJob → Bool
is_for rule user j = holds_slot j && str_eq j.rule_id rule && str_eq j.user_id user

is_for-conflicts :
    (rule user : String) (j k : DmJob)
    → is_for rule user j ≡ true
    → is_for rule user k ≡ conflicts j k
unfolding conflicts
is_for-conflicts rule user j k f =
    let r : j.rule_id ≡ rule = (str_eq_iff j.rule_id rule).0 (ground arith) in
    let u : j.user_id ≡ user = (str_eq_iff j.user_id user).0 (ground arith) in
    rw (sym r, sym u) (grind text_tests)

none_beside :
    (rule user : String) (j : DmJob) (js : List DmJob)
    → is_for rule user j ≡ true
    → any_where (conflicts j) js ≡ false
    → count_where (is_for rule user) js ≡ 0
none_beside rule user j [] f h = refl
none_beside rule user j (k ∷ ks) f h =
    ground (arith, is_for-conflicts rule user j k f, none_beside rule user j ks f)

at_most_one :
    (rule user : String) (js : List DmJob) → SlotsUnique js → count_where (is_for rule user) js ≤ 1
at_most_one rule user [] u = omega arith
at_most_one rule user (j ∷ js) u = elim (Bool-cases (is_for rule user j)) [
  | inl e ↦ ground (arith, none_beside rule user j js e u.0)
  | inr e ↦ ground (arith, at_most_one rule user js u.1)
]

-- Where the settings allow a send and a delivery, in every state that the program reaches from empty
-- tables a user has at most one job for a rule that is not cancelled, and no job has more attempts than
-- `max_delivery_attempts * max_dm_attempts` and one more for each of its failed deliveries.
pub one_job_per_user :
    (s : Settings) (lower : String → String) (b : HasBudgets s) (st : State) (rule user : String)
    → Reachable s lower st
    → (count_where (is_for rule user) st.db.jobs ≤ 1)
      × All
          (λ j. j.attempts ≤ j.send_cycle + s.max_delivery_attempts * s.max_dm_attempts)
          st.db.jobs
one_job_per_user s lower b st rule user r =
    let sound = Reachable-IsSound s lower b st r in
    (
      at_most_one rule user st.db.jobs sound.table.slots,
      All-map (λ (j : DmJob) (w : IsWithinBudget s j). attempts_bound s j w) st.db.jobs
          sound.budgets,
    )
