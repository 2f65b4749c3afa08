-- ===== src/Jobs/Claim.antt =====
-- app/services/jobs.py, claim_next_job: the choice of the job, and two claims in turn.
use linkplease_tech_assignme.Base.{
  ℕ, ◌≡◌, ◌≢◌, refl, sym, ap, subst, not_none, Bool, true, false, Option, none, some, List, [], ◌∷◌,
  arith, All, update_where, count_where, select_where, first_where-fits, order_by, IsOrdered,
  All-order_by, order_by-All, order_by-IsOrdered, take, map, ◌==◌, ==_iff, Bool-cases, inl, inr,
  length-order_by, All-select_where, select_where-All,
}
use linkplease_tech_assignme.Models.{Db, Time, DmJob, JobStatus}
use linkplease_tech_assignme.Jobs.{
  runnable, before_time, claims_before, job_by_id, claimable, mark_sending, claim_first,
  claim_next_job,
}
use linkplease_tech_assignme.Jobs.Rows.{FoundIn, found_self, found_updated, found_counted}
use linkplease_tech_assignme.Jobs.Table.{JobsValid}

before_time_total :
    (t u : Option Time) (i k : ℕ) → before_time t u i k ≡ false → before_time u t k i ≡ true
before_time_total none none i k h = ground arith
before_time_total none (some u) i k h = cc
before_time_total (some t) none i k h = refl
before_time_total (some t) (some u) i k h = ground arith

before_time_trans :
    (t u v : Option Time) (i k l : ℕ)
    → before_time t u i k ≡ true
    → before_time u v k l ≡ true
    → before_time t v i l ≡ true
before_time_trans none none none i k l g h = ground arith
before_time_trans none _ (some v) i k l g h = refl
before_time_trans none (some u) none i k l g h = cc
before_time_trans (some t) none v i k l g h = cc
before_time_trans (some t) (some u) none i k l g h = cc
before_time_trans (some t) (some u) (some v) i k l g h = ground arith

before_time_refl : (t : Option Time) (i : ℕ) → before_time t t i i ≡ true
before_time_refl none i = ground arith
before_time_refl (some t) i = ground arith

IsOrdered-candidates : (js : List DmJob) → IsOrdered claims_before (order_by claims_before js)
unfolding claims_before
IsOrdered-candidates =
    order_by-IsOrdered claims_before
      (λ j k. before_time_total j.next_retry_at k.next_retry_at j.id k.id)
      (λ j k l. before_time_trans j.next_retry_at k.next_retry_at l.next_retry_at j.id k.id l.id)

-- What `claim_next_job` has done, by its result.
abbrev pub Claims : Time → Time → Db → Option DmJob × Db → Type 0
Claims now stamp db (none, db') = All (λ k. runnable now k ≡ false) db.jobs × (db' ≡ db)
Claims now stamp db (some j, db') =
    (old : DmJob) × (job_by_id j.id db ≡ some old)
    × (runnable now old ≡ true)
    × All (λ k. runnable now k ≡ true → claims_before old k ≡ true) db.jobs
    × (j ≡ record old { status = JobStatus.sending; updated_at = stamp })
    × (db' ≡ mark_sending j.id stamp db)

select_nil :
    (p : DmJob → Bool) (js : List DmJob) → select_where p js ≡ [] → All (λ k. p k ≡ false) js
select_nil p [] h = tt
select_nil p (j ∷ js) h = elim (Bool-cases (p j)) [
  | inl e ↦ absurd (ground arith)
  | inr e ↦ (e, select_nil p js (rw e at h))
]

order_nil : (js : List DmJob) → order_by claims_before js ≡ [] → js ≡ []
order_nil [] h = refl
order_nil (j ∷ js) h = absurd (ground (arith, length-order_by claims_before (j ∷ js)))

runnable-claimable : (now : Time) (j : DmJob) → runnable now j ≡ true → claimable j.id j ≡ true
unfolding runnable claimable
runnable-claimable now j h = ground arith

least_runnable :
    (now : Time) (db : Db) (c : DmJob) (cs : List DmJob)
    → order_by claims_before (select_where (runnable now) db.jobs) ≡ c ∷ cs
    → All (λ k. claims_before c k ≡ true) cs
    → All (λ k. runnable now k ≡ true → claims_before c k ≡ true) db.jobs
unfolding claims_before
least_runnable now db c cs h a =
    select_where-All (λ k. claims_before c k ≡ true) (runnable now) db.jobs
      (order_by-All claims_before (λ k. claims_before c k ≡ true) _
        (rw h (before_time_refl c.next_retry_at c.id, a)))

claim_first-taken :
    (id : ℕ) (ids : List ℕ) (stamp : Time) (db : Db)
    → count_where (claimable id) db.jobs ≢ 0
    → claim_first (id ∷ ids) stamp db
      ≡ (job_by_id id (mark_sending id stamp db), mark_sending id stamp db)
unfolding claim_first
claim_first-taken id ids stamp db h = ground arith

mark_sending-found :
    (stamp : Time) (db : Db) (c : DmJob)
    → FoundIn db.jobs c
    → claimable c.id c ≡ true
    → job_by_id c.id (mark_sending c.id stamp db)
      ≡ some (record c { status = JobStatus.sending; updated_at = stamp })
unfolding mark_sending
mark_sending-found stamp db c found e =
    found_updated (claimable c.id) (λ j. j.id == c.id)
      (λ j. record j { status = JobStatus.sending; updated_at = stamp }) db.jobs c (λ x. refl) found
      e

claim_head :
    (now stamp : Time) (db : Db) (c : DmJob) (ids : List ℕ)
    → FoundIn db.jobs c
    → runnable now c ≡ true
    → All (λ k. runnable now k ≡ true → claims_before c k ≡ true) db.jobs
    → Claims now stamp db (claim_first (c.id ∷ ids) stamp db)
claim_head now stamp db c ids found run least =
    let e = runnable-claimable now c run in
    let counted = found_counted (claimable c.id) (λ j. j.id == c.id) db.jobs c found e in
    rw (claim_first-taken c.id ids stamp db counted, mark_sending-found stamp db c found e)
      (c, found, run, least, refl, refl)

Claims-first :
    (now stamp : Time) (db : Db) (sorted : List DmJob)
    → JobsValid db
    → order_by claims_before (select_where (runnable now) db.jobs) ≡ sorted
    → Claims now stamp db (claim_first (map (λ j. j.id) (take 10 sorted)) stamp db)
unfolding claim_first
Claims-first now stamp db [] v h = (select_nil (runnable now) db.jobs (order_nil _ h), refl)
Claims-first now stamp db (c ∷ cs) v h =
    let found = All-order_by claims_before _ _ (
      All-select_where (FoundIn db.jobs) (runnable now) db.jobs
        (found_self 0 db.jobs v.ascending)) in
    let found_c : FoundIn db.jobs c × (runnable now c ≡ true) = (rw h at found).0 in
    let ordered = IsOrdered-candidates (select_where (runnable now) db.jobs) in
    let least : All (λ k. claims_before c k ≡ true) cs = (rw h at ordered).0 in
    claim_head now stamp db c (map (λ j. j.id) (take 9 cs)) found_c.0 found_c.1
      (least_runnable now db c cs h least)

pub claim_next_job-Claims :
    (now stamp : Time) (db : Db) → JobsValid db → Claims now stamp db (claim_next_job now stamp db)
unfolding claim_next_job
claim_next_job-Claims now stamp db v = Claims-first now stamp db _ v refl

claim_first-some :
    (ids : List ℕ) (stamp : Time) (db : Db) (j : DmJob)
    → (claim_first ids stamp db).0 ≡ some j
    → (count_where (claimable j.id) db.jobs ≢ 0)
      × ((claim_first ids stamp db).1 ≡ mark_sending j.id stamp db)
unfolding claim_first
claim_first-some [] stamp db j h = absurd (cc)
claim_first-some (id ∷ ids) stamp db j h =
    elim (Bool-cases (count_where (claimable id) db.jobs == 0)) [
      | inl e ↦ rw e (claim_first-some ids stamp db j (rw e at h))
      | inr e ↦
          let h' : job_by_id id (mark_sending id stamp db) ≡ some j = rw e at h in
          let same : j.id ≡ id = (==_iff j.id id).0 (first_where-fits (λ k. k.id == id) _ j h') in
          rw (e, same) ((λ z. absurd (ground arith)), refl)
    ]

unclaimable :
    (id : ℕ) (stamp : Time) (js : List DmJob)
    → count_where (claimable id) (
        update_where
          (claimable id)
          (λ j. record j { status = JobStatus.sending; updated_at = stamp })
          js)
      ≡ 0
unfolding claimable
unclaimable id stamp [] = refl
unclaimable id stamp (j ∷ js) = ground (arith, unclaimable id stamp js)

-- Two workers that claim one after the other, each from candidates that may be stale, never get the
-- same job.
pub claims-exclusive :
    (ids ids' : List ℕ) (stamp stamp' : Time) (db : Db) (j j' : DmJob)
    → (claim_first ids stamp db).0 ≡ some j
    → (claim_first ids' stamp' (claim_first ids stamp db).1).0 ≡ some j'
    → j'.id ≢ j.id
unfolding mark_sending
claims-exclusive ids ids' stamp stamp' db j j' h h' e =
    let (_, same) = claim_first-some ids stamp db j h in
    let (counted, _) = claim_first-some ids' stamp' _ j' h' in
    (rw same at counted) (rw e (unclaimable j.id stamp db.jobs))

claim_first-found :
    (ids : List ℕ) (stamp : Time) (db : Db) (j : DmJob) (db' : Db)
    → claim_first ids stamp db ≡ (some j, db')
    → job_by_id j.id db' ≡ some j
unfolding claim_first
claim_first-found [] stamp db j db' h = absurd (not_none (ap (λ (x : Option DmJob × Db). x.0) h))
claim_first-found (id ∷ ids) stamp db j db' h =
    elim (Bool-cases (count_where (claimable id) db.jobs == 0)) [
      | inl e ↦ claim_first-found ids stamp db j db' (rw e at h)
      | inr e ↦
          let taken : (job_by_id id (mark_sending id stamp db), mark_sending id stamp db)
              ≡ (some j, db') =
            rw e at h in
          let found : job_by_id id (mark_sending id stamp db) ≡ some j =
            ap (λ (x : Option DmJob × Db). x.0) taken in
          let same : j.id ≡ id =
            (==_iff j.id id).0 (first_where-fits (λ k. k.id == id) _ j found) in
          subst (λ d. job_by_id j.id d ≡ some j) (ap (λ (x : Option DmJob × Db). x.1) taken)
            (subst (λ i. job_by_id i (mark_sending id stamp db) ≡ some j) (sym same) found)
    ]

-- The claimed row is found under its key afterwards.
pub claim_next_job-found :
    (now stamp : Time) (db : Db) (j : DmJob) (db' : Db)
    → claim_next_job now stamp db ≡ (some j, db')
    → job_by_id j.id db' ≡ some j
unfolding claim_next_job
claim_next_job-found now stamp db j db' h = claim_first-found _ stamp db j db' h
