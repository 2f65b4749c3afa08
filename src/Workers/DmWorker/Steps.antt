-- ===== src/Workers/DmWorker/Steps.antt =====
-- app/workers/dm_worker.py: an iteration as transactions of System.
use linkplease_tech_assignme.Base.{
  ℕ, ◌≡◌, refl, sym, String, Option, none, some, inl, inr, Bool-cases, Option-cases, subst,
}
use linkplease_tech_assignme.Config.{Settings}
use linkplease_tech_assignme.Models.{Db, Time, DmJob}
use linkplease_tech_assignme.Pseudogram.{SendResult, configured}
use linkplease_tech_assignme.RateLimiter.{Limiter, Acquired, got, raised, out_of_fuel, persist}
use linkplease_tech_assignme.Jobs.{claim_next_job}
use linkplease_tech_assignme.Jobs.Claim.{Claims, claim_next_job-Claims}
use linkplease_tech_assignme.Jobs.Table.{JobsValid}
use linkplease_tech_assignme.Workers.DmWorker.{
  apply_result, Course, to_end, stopped_before_slot, stopped_before_reply, stopped_in_pause,
  Surroundings, released, after_store, store_reply, send_job, with_slot, after_claim, idle,
  with_claimed, run_once,
}
use linkplease_tech_assignme.System.{
  State, job_claimed, attempt_logged, reply_stored, claim_released, late_release,
}
use linkplease_tech_assignme.System.History.{Runs, no_more, and_then, Runs-append, single}

abbrev pub state : Db → Option ℕ → State
state db f = record { db = db; in_flight = f }

-- What the other sessions do to the tables while a job is in flight is transactions too.
abbrev pub ByOthers : Settings → (String → String) → (Db → Db) → Type 1
ByOthers s lower f = (id : ℕ) (db : Db) → Runs s lower (state db (some id)) (state (f db) (some id))

-- And while none is.
abbrev pub AtRestOthers : Settings → (String → String) → (Db → Db) → Type 1
AtRestOthers s lower f = (db : Db) → Runs s lower (state db none) (state (f db) none)

module _ (s : Settings) (lower : String → String) (w : Surroundings)
    (others : ByOthers s lower w.meanwhile) (pause : AtRestOthers s lower w.in_pause) where
  released-Steps :
      (id : ℕ) (l : Limiter) (db : Db)
      → Runs s lower (state db (some id)) (state (released s w id l db).db none)
  unfolding released
  released-Steps id l db = single _ _ (claim_released id w.released_at db)

  stored-Steps :
      (course : Course) (id : ℕ) (result : SendResult) (l : Limiter) (db db' : Db)
      → apply_result s w.draw id result w.replied_at db ≡ some db'
      → Runs s lower (state db (some id)) (state (after_store s w course id result l db').db none)
  unfolding after_store released
  stored-Steps to_end id result l db db' e =
      single _ _ (reply_stored w.draw id result w.replied_at db db' e)
  stored-Steps stopped_before_slot id result l db db' e =
      single _ _ (reply_stored w.draw id result w.replied_at db db' e)
  stored-Steps stopped_before_reply id result l db db' e =
      single _ _ (reply_stored w.draw id result w.replied_at db db' e)
  stored-Steps stopped_in_pause id result l db db' e =
      and_then _ _ _ (reply_stored w.draw id result w.replied_at db db' e) (
        Runs-append _ _ _ (pause db') (single _ _ (late_release id w.released_at (w.in_pause db'))))

  store-Steps :
      (course : Course) (id : ℕ) (result : SendResult) (l : Limiter) (db : Db)
      → Runs s lower (state db (some id)) (state (store_reply s w course id result l db).db none)
  unfolding store_reply
  store-Steps course id result l db =
      elim (Option-cases (apply_result s w.draw id result w.replied_at db)) [
        | inl e ↦ rw (e, store_reply) (released-Steps id l db)
        | inr (db', e) ↦ rw (e, store_reply) (stored-Steps course id result l db db' e)
      ]

  -- The attempt is logged, and the others go on until the reply is there.
  logged-Steps :
      (id : ℕ) (t : Time) (l : Limiter) (db : Db)
      → Runs s lower (state db (some id)) (state (w.meanwhile (persist w.logs t l db)) (some id))
  logged-Steps id t l db =
      and_then _ _ _ (attempt_logged w.logs t l (state db (some id)))
        (others id (persist w.logs t l db))

  send-Steps :
      (course : Course) (job : DmJob) (t : Time) (l : Limiter) (db : Db)
      → Runs s lower (state db (some job.id)) (state (send_job s w course job t l db).db none)
  unfolding send_job
  send-Steps to_end job t l db =
      Runs-append _ _ _ (logged-Steps job.id t l db) (store-Steps to_end job.id _ l _)
  send-Steps stopped_before_slot job t l db =
      Runs-append _ _ _ (logged-Steps job.id t l db) (store-Steps stopped_before_slot job.id _ l _)
  send-Steps stopped_before_reply job t l db =
      Runs-append _ _ _ (logged-Steps job.id t l db) (released-Steps job.id l _)
  send-Steps stopped_in_pause job t l db =
      Runs-append _ _ _ (logged-Steps job.id t l db) (store-Steps stopped_in_pause job.id _ l _)

  slot-Steps :
      (course : Course) (job : DmJob) (l : Limiter) (db : Db) (a : Acquired)
      → Runs s lower (state db (some job.id)) (state (with_slot s w course job l db a).db none)
  unfolding with_slot
  slot-Steps course job l db (got t l') = send-Steps course job t l' db
  slot-Steps course job l db raised =
      Runs-append _ _ _ (others job.id db) (released-Steps job.id l _)
  slot-Steps course job l db out_of_fuel =
      Runs-append _ _ _ (others job.id db) (released-Steps job.id l _)

  after-Steps :
      (course : Course) (job : DmJob) (l : Limiter) (db : Db)
      → Runs s lower (state db (some job.id)) (state (after_claim s w course job l db).db none)
  unfolding after_claim
  after-Steps to_end job l db = slot-Steps to_end job l db _
  after-Steps stopped_before_slot job l db =
      Runs-append _ _ _ (others job.id db) (released-Steps job.id l _)
  after-Steps stopped_before_reply job l db = slot-Steps stopped_before_reply job l db _
  after-Steps stopped_in_pause job l db = slot-Steps stopped_in_pause job l db _

  claimed-Steps :
      (course : Course) (l : Limiter) (db : Db) (x : Option DmJob × Db)
      → JobsValid db
      → claim_next_job w.now w.claimed_at db ≡ x
      → Runs s lower (state db none) (state (with_claimed s w course l x).db none)
  unfolding with_claimed idle
  claimed-Steps course l db (none, db') v e =
      let (_, same) =
        subst (Claims w.now w.claimed_at db) e (claim_next_job-Claims w.now w.claimed_at db v) in
      subst (λ (d : Db). Runs s lower (state db none) (state d none)) (sym same)
        (no_more (state db none))
  claimed-Steps course l db (some job, db') v e =
      and_then _ _ _ (job_claimed w.now w.claimed_at db db' job e) (after-Steps course job l db')

  -- Where what the other sessions do meanwhile is transactions, an iteration of the DM worker on a
  -- valid table of jobs, however far it gets, is a sequence of transactions without a crash.
  pub run_once-Steps :
      (course : Course) (l : Limiter) (db : Db)
      → JobsValid db
      → Runs s lower (state db none) (state (run_once s w course l db).db none)
  unfolding run_once idle
  run_once-Steps course l db v = elim (Bool-cases (configured s)) [
    | inl c ↦ rw (c, run_once) (claimed-Steps course l db _ v refl)
    | inr c ↦ rw (c, run_once) (no_more (state db none))
  ]
