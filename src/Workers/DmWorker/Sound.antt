-- ===== src/Workers/DmWorker/Sound.antt =====
-- app/workers/dm_worker.py: an iteration, and the invariant of the jobs.
use linkplease_tech_assignme.Base.{
  ℕ, ◌<◌, ◌≡◌, refl, sym, ap, ◌∙◌, Bool, true, Option, none, some, arith, first_where-All, ◌==◌,
  Bool-cases, Option-cases, inl, inr, some_eq, subst,
}
use linkplease_tech_assignme.Config.{Settings}
use linkplease_tech_assignme.Models.{Db, Time, DmJob, JobStatus, job_status_eq}
use linkplease_tech_assignme.Pseudogram.{SendResult, configured}
use linkplease_tech_assignme.RateLimiter.{
  Limiter, Acquired, got, raised, out_of_fuel, persist, record_attempt,
}
use linkplease_tech_assignme.Jobs.{job_by_id, claim_next_job}
use linkplease_tech_assignme.Jobs.Claim.{Claims, claim_next_job-Claims, claim_next_job-found}
use linkplease_tech_assignme.Jobs.Outcomes.Budget.{
  awaits_send, IsWithinBudget, apply_send_result-IsWithinBudget,
}
use linkplease_tech_assignme.Jobs.Outcomes.Effects.{apply_send_result-Replied}
use linkplease_tech_assignme.Jobs.Sound.{
  IsSound, IsSound-frame, claim_next_job-IsSound, save_job-IsSound,
}
use linkplease_tech_assignme.Workers.DmWorker.{
  apply_result, release_job, release_claim, Course, to_end, stopped_before_slot,
  stopped_before_reply, stopped_in_pause, Surroundings, released, after_store, store_reply,
  send_job, with_slot, after_claim, idle, with_claimed, run_once,
}
use linkplease_tech_assignme.Jobs.Requeue.{release-IsSound}
use linkplease_tech_assignme.Workers.DmWorker.Release.{apply_result-saved}

-- The row with this key, if there is one, still waits for the reply to a send.
abbrev pub Awaits : ℕ → Db → Type 0
Awaits id db = (j : DmJob) → job_by_id id db ≡ some j → awaits_send j.status ≡ true

-- What the other sessions may do while a job is being sent: keep the invariant, and leave it to this
-- worker to take the job through its reply.
pub record Meanwhile (s : Settings) (id : ℕ) (f : Db → Db) : Type 0 where
  pub sound : (db : Db) → IsSound s db → IsSound s (f db)
  pub waits : (db : Db) → Awaits id db → Awaits id (f db)

pub release_claim-IsSound :
    (s : Settings) (id : ℕ) (now : Time) (db : Db)
    → IsSound s db
    → IsSound s (release_claim id now db)
unfolding release_claim release_job
release_claim-IsSound s id now db v = elim (Option-cases (job_by_id id db)) [
  | inl e ↦ rw (e, release_claim) v
  | inr (job, e) ↦ elim (Bool-cases (job_status_eq job.status JobStatus.sending)) [
    | inl q ↦ rw (e, release_claim) (rw q (release-IsSound s id job now db e q v))
    | inr q ↦ rw (e, release_claim) (rw q v)
  ]
]

pub apply_result-IsSound :
    (s : Settings) (draw id : ℕ) (result : SendResult) (now : Time) (db : Db) {db' : Db}
    → IsSound s db
    → Awaits id db
    → apply_result s draw id result now db ≡ some db'
    → IsSound s db'
apply_result-IsSound s draw id result now db {db'} v waits h =
    elim (apply_result-saved s draw id result now db h) [
      | inl (_, same) ↦ rw same v
      | inr (job, job', e, f, g) ↦
          let kept = (apply_send_result-Replied s draw result now job f).same.same_id in
          save_job-IsSound s job' db
            (rw kept (
              first_where-All (λ j. j.id < db.next_job_id) (λ (j : DmJob). j.id == id) db.jobs job
                v.table.below e))
            (apply_send_result-IsWithinBudget s draw result now job (waits job e)
              (first_where-All (IsWithinBudget s) (λ (j : DmJob). j.id == id) db.jobs job v.budgets
                e)
              f)
            v g
    ]

-- Logging an attempt writes the log and its next key.
pub persist_frame :
    (ok : Bool) (t : Time) (l : Limiter) (db : Db)
    → let db' = persist ok t l db in
      db'
      ≡ record db { send_attempt_log = db'.send_attempt_log; next_attempt_id = db'.next_attempt_id }
unfolding persist record_attempt
persist_frame ok t l db = ground arith

module _ (s : Settings) (w : Surroundings)
    (pause : (db : Db) → IsSound s db → IsSound s (w.in_pause db)) where
  released-IsSound :
      (id : ℕ) (l : Limiter) (db : Db) → IsSound s db → IsSound s (released s w id l db).db
  unfolding released
  released-IsSound id l db v = release_claim-IsSound s id w.released_at db v

  after_store-IsSound :
      (course : Course) (id : ℕ) (result : SendResult) (l : Limiter) (db : Db)
      → IsSound s db
      → IsSound s (after_store s w course id result l db).db
  unfolding after_store
  after_store-IsSound to_end id result l db v = v
  after_store-IsSound stopped_before_slot id result l db v = v
  after_store-IsSound stopped_before_reply id result l db v = v
  after_store-IsSound stopped_in_pause id result l db v =
      released-IsSound id l (w.in_pause db) (pause db v)

  store-IsSound :
      (course : Course) (id : ℕ) (result : SendResult) (l : Limiter) (db : Db)
      → IsSound s db
      → Awaits id db
      → IsSound s (store_reply s w course id result l db).db
  unfolding store_reply
  store-IsSound course id result l db v waits =
      elim (Option-cases (apply_result s w.draw id result w.replied_at db)) [
        | inl e ↦ rw (e, store_reply) (released-IsSound id l db v)
        | inr (db', e) ↦
            rw (e, store_reply)
              (after_store-IsSound course id result l db'
                (apply_result-IsSound s w.draw id result w.replied_at db v waits e))
      ]

  module _ (job : DmJob) (m : Meanwhile s job.id w.meanwhile) where
    persist-IsSound :
        (t : Time) (l : Limiter) (db : Db) → IsSound s db → IsSound s (persist w.logs t l db)
    persist-IsSound t l db v =
        IsSound-frame s db (persist w.logs t l db)
          (ap (λ (d : Db). d.jobs) (persist_frame w.logs t l db))
          (ap (λ (d : Db). d.next_job_id) (persist_frame w.logs t l db)) v

    persist-Awaits :
        (t : Time) (l : Limiter) (db : Db)
        → Awaits job.id db
        → Awaits job.id (persist w.logs t l db)
    persist-Awaits t l db a j e =
        a j (rw (ap (λ (d : Db). d.jobs) (persist_frame w.logs t l db)) at e)

    send-IsSound :
        (course : Course) (t : Time) (l : Limiter) (db : Db)
        → IsSound s db
        → Awaits job.id db
        → IsSound s (send_job s w course job t l db).db
    unfolding send_job
    send-IsSound stopped_before_reply t l db v a =
        released-IsSound job.id l _ (m.sound _ (persist-IsSound t l db v))
    send-IsSound to_end t l db v a =
        store-IsSound to_end job.id _ l _ (m.sound _ (persist-IsSound t l db v))
          (m.waits _ (persist-Awaits t l db a))
    send-IsSound stopped_before_slot t l db v a =
        store-IsSound stopped_before_slot job.id _ l _ (m.sound _ (persist-IsSound t l db v))
          (m.waits _ (persist-Awaits t l db a))
    send-IsSound stopped_in_pause t l db v a =
        store-IsSound stopped_in_pause job.id _ l _ (m.sound _ (persist-IsSound t l db v))
          (m.waits _ (persist-Awaits t l db a))

    slot-IsSound :
        (course : Course) (l : Limiter) (db : Db) (q : Acquired)
        → IsSound s db
        → Awaits job.id db
        → IsSound s (with_slot s w course job l db q).db
    unfolding with_slot
    slot-IsSound course l db (got t l') v a = send-IsSound course t l' db v a
    slot-IsSound course l db raised v a = released-IsSound job.id l _ (m.sound db v)
    slot-IsSound course l db out_of_fuel v a = released-IsSound job.id l _ (m.sound db v)

    after_claim-IsSound :
        (course : Course) (l : Limiter) (db : Db)
        → IsSound s db
        → Awaits job.id db
        → IsSound s (after_claim s w course job l db).db
    unfolding after_claim
    after_claim-IsSound stopped_before_slot l db v a = released-IsSound job.id l _ (m.sound db v)
    after_claim-IsSound to_end l db v a = slot-IsSound to_end l db _ v a
    after_claim-IsSound stopped_before_reply l db v a = slot-IsSound stopped_before_reply l db _ v a
    after_claim-IsSound stopped_in_pause l db v a = slot-IsSound stopped_in_pause l db _ v a

  claimed-Awaits :
      (db : Db) (job : DmJob) (db' : Db)
      → Claims w.now w.claimed_at db (some job, db')
      → claim_next_job w.now w.claimed_at db ≡ (some job, db')
      → Awaits job.id db'
  claimed-Awaits db job db' c e j f =
      let (_, _, _, _, marked, _) = c in
      let found : some j ≡ some job =
        sym f ∙ claim_next_job-found w.now w.claimed_at db job db' e in
      rw (some_eq found, marked)

  claimed-IsSound :
      (course : Course) (l : Limiter) (db : Db) (x : Option DmJob × Db)
      → claim_next_job w.now w.claimed_at db ≡ x
      → ((job : DmJob) → Meanwhile s job.id w.meanwhile)
      → IsSound s db
      → IsSound s (with_claimed s w course l x).db
  unfolding with_claimed idle
  claimed-IsSound course l db (none, db') e m v =
      subst (λ (y : Option DmJob × Db). IsSound s y.1) e
        (claim_next_job-IsSound s w.now w.claimed_at db v)
  claimed-IsSound course l db (some job, db') e m v =
      after_claim-IsSound job (m job) course l db'
        (subst (λ (y : Option DmJob × Db). IsSound s y.1) e
          (claim_next_job-IsSound s w.now w.claimed_at db v))
        (claimed-Awaits db job db'
          (subst (Claims w.now w.claimed_at db) e
            (claim_next_job-Claims w.now w.claimed_at db v.table))
          e)

  -- An iteration of the worker keeps every job within its budgets and the table valid, wherever it is
  -- stopped and whatever the reply is, if the other sessions keep the invariant, meanwhile and in the
  -- pause after the reply, and leave the reply of the claimed job to this worker.
  pub run_once-IsSound :
      (course : Course) (l : Limiter) (db : Db)
      → ((job : DmJob) → Meanwhile s job.id w.meanwhile)
      → IsSound s db
      → IsSound s (run_once s w course l db).db
  unfolding run_once idle
  run_once-IsSound course l db m v = elim (Bool-cases (configured s)) [
    | inl c ↦ rw (c, run_once) (claimed-IsSound course l db _ refl m v)
    | inr c ↦ rw (c, run_once) v
  ]
