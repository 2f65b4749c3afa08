-- ===== src/Workers/DmWorker/Release.antt =====
-- app/workers/dm_worker.py: the claimed job after an iteration.
use linkplease_tech_assignme.Base.{
  ℕ, ◌≡◌, ◌⊎◌, sym, ap, ◌∙◌, Bool, true, false, Option, none, some, List, [], ◌∷◌, arith,
  first_where, first_where-fits, ◌==◌, ==_iff, Bool-cases, Option-cases, inl, inr, some_eq,
  not_none, subst,
}
use linkplease_tech_assignme.Config.{Settings}
use linkplease_tech_assignme.Models.{Db, Time, DmJob, JobStatus, job_status_eq}
use linkplease_tech_assignme.Models.Slots.{replace, other_conflicts}
use linkplease_tech_assignme.Pseudogram.{SendResult, configured}
use linkplease_tech_assignme.RateLimiter.{Limiter, Acquired, got, raised, out_of_fuel}
use linkplease_tech_assignme.Jobs.{job_by_id, claim_next_job}
use linkplease_tech_assignme.Jobs.Outcomes.{apply_send_result, save_job}
use linkplease_tech_assignme.Jobs.Outcomes.Effects.{Replied, apply_send_result-Replied}
use linkplease_tech_assignme.Workers.DmWorker.{
  apply_to, after_store, with_slot, apply_result, release_job, release_claim, Course, to_end,
  stopped_before_slot, stopped_before_reply, stopped_in_pause, Surroundings, released, store_reply,
  send_job, after_claim, with_claimed, run_once,
}

-- The row with this key is `sending`.
abbrev pub sending_row : Option DmJob → Bool
sending_row none = false
sending_row (some j) = job_status_eq j.status JobStatus.sending

abbrev pub is_sending : ℕ → Db → Bool
is_sending id db = sending_row (job_by_id id db)

found_replaced :
    (id : ℕ) (old new : DmJob) (js : List DmJob)
    → new.id ≡ id
    → first_where (λ (j : DmJob). j.id == id) js ≡ some old
    → first_where (λ (j : DmJob). j.id == id) (replace new js) ≡ some new
found_replaced id old new [] e h = absurd (not_none h)
found_replaced id old new (j ∷ js) e h = ground (arith, found_replaced id old new js e)

release-not_sending :
    (id : ℕ) (now : Time) (db : Db) → is_sending id (release_claim id now db) ≡ false
unfolding release_claim release_job
release-not_sending id now db = elim (Option-cases (job_by_id id db)) [
  | inl e ↦ rw (e, release_claim) (rw e)
  | inr (job, e) ↦ elim (Bool-cases (job_status_eq job.status JobStatus.sending)) [
    | inl s ↦
        let same : job.id ≡ id =
          (==_iff job.id id).0 (first_where-fits (λ (j : DmJob). j.id == id) db.jobs job e) in
        rw (e, release_claim)
          (rw s (
            ap sending_row (
              found_replaced id job (record job { status = JobStatus.queued; updated_at = now })
                db.jobs same e)))
    | inr s ↦ rw (e, release_claim) (rw s (ap sending_row e ∙ s))
  ]
]

saved-not_sending :
    (id : ℕ) (old new : DmJob) (db : Db) {db' : Db}
    → new.id ≡ id
    → job_by_id id db ≡ some old
    → job_status_eq new.status JobStatus.sending ≡ false
    → save_job new db ≡ some db'
    → is_sending id db' ≡ false
unfolding save_job
saved-not_sending id old new db same e s h = elim (Bool-cases (other_conflicts new db.jobs)) [
  | inl c ↦ absurd (not_none (rw c at h))
  | inr c ↦
      subst (λ d. is_sending id d ≡ false) (some_eq (rw c at h))
        (ap sending_row (found_replaced id old new db.jobs same e) ∙ s)
]

Replied-not_sending :
    {j j' : DmJob} → Replied j j' → job_status_eq j'.status JobStatus.sending ≡ false
Replied-not_sending r = elim r.settled [ inl e ↦ rw e | inr (inl e) ↦ rw e | inr (inr e) ↦ rw e ]

apply_to-saved :
    (s : Settings) (draw : ℕ) (result : SendResult) (now : Time) (job : DmJob) (db : Db) {db' : Db}
    → apply_to s draw result now job db ≡ some db'
    → (job' : DmJob) × (apply_send_result s draw result now job ≡ some job')
      × (save_job job' db ≡ some db')
unfolding apply_to
apply_to-saved s draw result now job db h =
    elim (Option-cases (apply_send_result s draw result now job)) [
      | inl f ↦ absurd (not_none (rw (f, apply_to) at h))
      | inr (job', f) ↦ (job', f, rw (f, apply_to) at h)
    ]

-- What `_apply` has done where it raised nothing.
pub apply_result-saved :
    (s : Settings) (draw id : ℕ) (result : SendResult) (now : Time) (db : Db) {db' : Db}
    → apply_result s draw id result now db ≡ some db'
    → ((job_by_id id db ≡ none) × (db' ≡ db))
      ⊎ ((job job' : DmJob) × (job_by_id id db ≡ some job)
          × (apply_send_result s draw result now job ≡ some job')
          × (save_job job' db ≡ some db'))
unfolding apply_result
apply_result-saved s draw id result now db h = elim (Option-cases (job_by_id id db)) [
  | inl e ↦ inl (e, sym (some_eq (rw (e, apply_result) at h)))
  | inr (job, e) ↦
      let (job', f, g) = apply_to-saved s draw result now job db (rw (e, apply_result) at h) in
      inr (job, job', e, f, g)
]

pub found_id : (id : ℕ) (db : Db) (job : DmJob) → job_by_id id db ≡ some job → job.id ≡ id
found_id id db job e =
    (==_iff job.id id).0 (first_where-fits (λ (j : DmJob). j.id == id) db.jobs job e)

apply-not_sending :
    (s : Settings) (draw id : ℕ) (result : SendResult) (now : Time) (db : Db) {db' : Db}
    → apply_result s draw id result now db ≡ some db'
    → is_sending id db' ≡ false
apply-not_sending s draw id result now db h = elim (apply_result-saved s draw id result now db h) [
  | inl (e, same) ↦ rw (same, e)
  | inr (job, job', e, f, g) ↦
      let r = apply_send_result-Replied s draw result now job f in
      saved-not_sending id job job' db (r.same.same_id ∙ found_id id db job e) e
        (Replied-not_sending r) g
]

module _ (s : Settings) (w : Surroundings) where
  released-not_sending :
      (id : ℕ) (l : Limiter) (db : Db) → is_sending id (released s w id l db).db ≡ false
  unfolding released
  released-not_sending id l db = release-not_sending id w.released_at db

  store-not_sending :
      (course : Course) (id : ℕ) (result : SendResult) (l : Limiter) (db : Db)
      → is_sending id (store_reply s w course id result l db).db ≡ false
  unfolding store_reply after_store
  store-not_sending course id result l db =
      elim (Option-cases (apply_result s w.draw id result w.replied_at db)) [
        | inl e ↦ rw (e, store_reply) (released-not_sending id l db)
        | inr (db', e) ↦ rw (e, store_reply) (stored course db' e)
      ]
    where
      stored :
          (c : Course) (db' : Db)
          → apply_result s w.draw id result w.replied_at db ≡ some db'
          → is_sending id (after_store s w c id result l db').db ≡ false
      stored to_end db' e = apply-not_sending s w.draw id result w.replied_at db e
      stored stopped_before_slot db' e = apply-not_sending s w.draw id result w.replied_at db e
      stored stopped_before_reply db' e = apply-not_sending s w.draw id result w.replied_at db e
      stored stopped_in_pause db' e = released-not_sending id l (w.in_pause db')

  send-not_sending :
      (course : Course) (job : DmJob) (t : Time) (l : Limiter) (db : Db)
      → is_sending job.id (send_job s w course job t l db).db ≡ false
  unfolding send_job
  send-not_sending to_end job t l db = store-not_sending to_end job.id _ l _
  send-not_sending stopped_before_slot job t l db =
      store-not_sending stopped_before_slot job.id _ l _
  send-not_sending stopped_before_reply job t l db = released-not_sending job.id l _
  send-not_sending stopped_in_pause job t l db = store-not_sending stopped_in_pause job.id _ l _

  acquired-not_sending :
      (course : Course) (job : DmJob) (l : Limiter) (db : Db) (a : Acquired)
      → is_sending job.id (with_slot s w course job l db a).db ≡ false
  unfolding with_slot
  acquired-not_sending course job l db (got t l') = send-not_sending course job t l' db
  acquired-not_sending course job l db raised = released-not_sending job.id l _
  acquired-not_sending course job l db out_of_fuel = released-not_sending job.id l _

  after-not_sending :
      (course : Course) (job : DmJob) (l : Limiter) (db : Db)
      → is_sending job.id (after_claim s w course job l db).db ≡ false
  unfolding after_claim
  after-not_sending to_end job l db = acquired-not_sending to_end job l db _
  after-not_sending stopped_before_slot job l db = released-not_sending job.id l _
  after-not_sending stopped_before_reply job l db =
      acquired-not_sending stopped_before_reply job l db _
  after-not_sending stopped_in_pause job l db = acquired-not_sending stopped_in_pause job l db _

  claimed-not_sending :
      (course : Course) (l : Limiter) (x : Option DmJob × Db) (job : DmJob)
      → x.0 ≡ some job
      → is_sending job.id (with_claimed s w course l x).db ≡ false
  unfolding with_claimed
  claimed-not_sending course l (none, db) job e = absurd (not_none e)
  claimed-not_sending course l (some j, db) job e =
      subst (λ (k : DmJob). is_sending k.id (after_claim s w course j l db).db ≡ false) (some_eq e)
        (after-not_sending course j l db)

  -- A worker with an API key that has claimed a job does not leave it `sending`, whatever the reply
  -- is, whether it could be stored, where the iteration was stopped, and whatever the other sessions
  -- did meanwhile.
  pub run_once-lets_go :
      (course : Course) (l : Limiter) (db : Db) (job : DmJob)
      → configured s ≡ true
      → (claim_next_job w.now w.claimed_at db).0 ≡ some job
      → is_sending job.id (run_once s w course l db).db ≡ false
  unfolding run_once
  run_once-lets_go course l db job c e =
      rw (c, run_once) (claimed-not_sending course l (claim_next_job w.now w.claimed_at db) job e)
