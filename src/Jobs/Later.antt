-- ===== src/Jobs/Later.antt =====
-- app/services/jobs.py: the table of jobs, and the same table later.
use linkplease_tech_assignme.Base.{
  ℕ, ◌≡◌, refl, sym, ap, ◌∙◌, Bool, true, false, String, Option, some, List, [], ◌∷◌, ◌++◌, arith,
  All, All-map, inl, inr, Bool-cases, some_eq, subst, first_where, count_where, update_where, ◌==◌,
  ==_iff, if◌then◌else◌, not_none,
}
use linkplease_tech_assignme.Models.{Db, DmJob, JobStatus}
use linkplease_tech_assignme.Models.Slots.{replace}
use linkplease_tech_assignme.Jobs.{job_by_id}
use linkplease_tech_assignme.Jobs.Rows.{FoundIn, found_self}
use linkplease_tech_assignme.Jobs.Table.{JobsValid}
use linkplease_tech_assignme.Jobs.Diagram.{
  Edges, Joins, Along, join_Along, Leads, Leads-refl, Leads-trans, Leads-more,
}

-- A row that was not there: where it comes from, and what is true of its comment.
pub record NewRow (E : Edges) (Fresh : Option String → Type 0) (k : DmJob) : Type 0 where
  pub path : Along E JobStatus.queued k.status
  pub fresh : Fresh k.comment_id

-- Row by row the jobs that were there went on, and new rows stand behind them.
pub data Extends (E : Edges) (Fresh : Option String → Type 0)
    : List DmJob → List DmJob → Type 0 where
  added : (ks : List DmJob) → All (NewRow E Fresh) ks → Extends E Fresh [] ks
  kept :
      (j k : DmJob) (js ks : List DmJob)
      → Leads E j k
      → Extends E Fresh js ks
      → Extends E Fresh (j ∷ js) (k ∷ ks)

module _ (E : Edges) (Fresh : Option String → Type 0) where
  pub Extends-refl : (js : List DmJob) → Extends E Fresh js js
  Extends-refl [] = added [] tt
  Extends-refl (j ∷ js) = kept j j js js (Leads-refl E j) (Extends-refl js)

  later_NewRow : Joins E → (j k : DmJob) → Leads E j k → NewRow E Fresh j → NewRow E Fresh k
  later_NewRow joins j k l n = record {
    path = join_Along E joins JobStatus.queued j.status k.status n.path l.path;
    fresh = subst Fresh (sym l.same.same_comment) n.fresh;
  }

  -- Rows that were new, later.
  later_added :
      Joins E
      → (Old : Option String → Type 0) (js ks : List DmJob)
      → ((c : Option String) → Old c → Fresh c)
      → All (NewRow E Fresh) js
      → Extends E Old js ks
      → All (NewRow E Fresh) ks
  later_added joins Old _ _ f a (added ks n) =
      All-map
        (λ (k : DmJob) (r : NewRow E Old k). record {
          path = r.path;
          fresh = f k.comment_id r.fresh;
        })
        ks n
  later_added joins Old _ _ f a (kept j k js ks l e) =
      (later_NewRow joins j k l a.0, later_added joins Old js ks f a.1 e)

  pub Extends-trans :
      Joins E
      → (Old : Option String → Type 0) (js ks ls : List DmJob)
      → ((c : Option String) → Old c → Fresh c)
      → Extends E Fresh js ks
      → Extends E Old ks ls
      → Extends E Fresh js ls
  Extends-trans joins Old _ _ ls f (added ks n) e = added ls (later_added joins Old ks ls f n e)
  Extends-trans joins Old _ _ _ f (kept j k js ks l d) (kept _ m _ ls l' e) =
      kept j m js ls (Leads-trans E joins j k m l l') (Extends-trans joins Old js ks ls f d e)

  pub Extends-append :
      (js : List DmJob) (k : DmJob) → NewRow E Fresh k → Extends E Fresh js (js ++ k ∷ [])
  Extends-append [] k n = added (k ∷ []) (n, tt)
  Extends-append (j ∷ js) k n = kept j j js (js ++ k ∷ []) (Leads-refl E j) (Extends-append js k n)

  pub Extends-update :
      (p : DmJob → Bool) (f : DmJob → DmJob) (js : List DmJob)
      → All (λ j. p j ≡ true → Leads E j (f j)) js
      → Extends E Fresh js (update_where p f js)
  Extends-update p f [] a = added [] tt
  Extends-update p f (j ∷ js) a =
      kept j (if p j then f j else j) js (update_where p f js) (row (p j) refl)
        (Extends-update p f js a.1)
    where
      row : (b : Bool) → p j ≡ b → Leads E j (if b then f j else j)
      row true e = a.0 e
      row false e = Leads-refl E j

pub All-intro {ℓ κ} : {A : Type ℓ} {P : A → Type κ} → ((x : A) → P x) → (xs : List A) → All P xs
All-intro f [] = tt
All-intro f (x ∷ xs) = (f x, All-intro f xs)

-- In a valid table every row with the key of `job` is `job`.
only_itself :
    (id : ℕ) (job : DmJob) (db : Db)
    → JobsValid db
    → job_by_id id db ≡ some job
    → All (λ k. (k.id == id) ≡ true → job ≡ k) db.jobs
only_itself id job db v e =
    All-map {Q = λ (k : DmJob). (k.id == id) ≡ true → job ≡ k}
      (λ (k : DmJob) (found : FoundIn db.jobs k) (h : (k.id == id) ≡ true).
        let same : k.id ≡ id = (==_iff k.id id).0 h in
        let here : job_by_id id db ≡ some k = subst (λ i. job_by_id i db ≡ some k) same found in
        some_eq (sym e ∙ here))
      db.jobs (found_self 0 db.jobs v.ascending)

-- The flush of a row that was read under its key and went on.
pub Extends-replace :
    (E : Edges) (Fresh : Option String → Type 0) (id : ℕ) (job job' : DmJob) (db : Db)
    → JobsValid db
    → job_by_id id db ≡ some job
    → job'.id ≡ id
    → Leads E job job'
    → Extends E Fresh db.jobs (replace job' db.jobs)
Extends-replace E Fresh id job job' db v e same l =
    Extends-update E Fresh (λ j. j.id == job'.id) (λ _. job') db.jobs
      (All-map {Q = λ (k : DmJob). (k.id == job'.id) ≡ true → Leads E k job'}
        (λ (k : DmJob) (f : (k.id == id) ≡ true → job ≡ k) (h : (k.id == job'.id) ≡ true).
          subst (λ x. Leads E x job') (f (ap (λ i. k.id == i) (sym same) ∙ h)) l)
        db.jobs (only_itself id job db v e))

-- A job that was there is found under its key, further on.
pub found-Extends :
    (E : Edges) (Fresh : Option String → Type 0) (id : ℕ) (js ks : List DmJob) (j : DmJob)
    → Extends E Fresh js ks
    → first_where (λ (x : DmJob). x.id == id) js ≡ some j
    → (k : DmJob) × (first_where (λ (x : DmJob). x.id == id) ks ≡ some k) × Leads E j k
found-Extends E Fresh id _ _ j (added ks n) h = absurd (not_none h)
found-Extends E Fresh id _ _ j (kept a b js ks l e) h = elim (Bool-cases (a.id == id)) [
  | inl t ↦
      let same : a ≡ j = some_eq (rw t at h) in
      let there : (b.id == id) ≡ true = ap (λ i. i == id) l.same.same_id ∙ t in
      (b, rw there refl, subst (λ x. Leads E x b) same l)
  | inr t ↦
      let (k, found, l') = found-Extends E Fresh id js ks j e (rw t at h) in
      let there : (b.id == id) ≡ false = ap (λ i. i == id) l.same.same_id ∙ t in
      (k, rw there found, l')
]

none_new :
    (E : Edges) (Fresh : Option String → Type 0) (p : Option String → Bool) (ks : List DmJob)
    → ((c : Option String) → Fresh c → p c ≡ false)
    → All (NewRow E Fresh) ks
    → count_where (λ (x : DmJob). p x.comment_id) ks ≡ 0
none_new E Fresh p [] f n = refl
none_new E Fresh p (k ∷ ks) f n =
    ground (arith, f k.comment_id n.0.fresh, none_new E Fresh p ks f n.1)

-- No row is added for a comment that no new row can have.
pub count-Extends :
    (E : Edges) (Fresh : Option String → Type 0) (p : Option String → Bool) (js ks : List DmJob)
    → ((c : Option String) → Fresh c → p c ≡ false)
    → Extends E Fresh js ks
    → count_where (λ (x : DmJob). p x.comment_id) ks
      ≡ count_where (λ (x : DmJob). p x.comment_id) js
count-Extends E Fresh p _ _ f (added ks n) = none_new E Fresh p ks f n
count-Extends E Fresh p _ _ f (kept a b js ks l e) =
    let same : p b.comment_id ≡ p a.comment_id = ap p l.same.same_comment in
    ground (arith, same, count-Extends E Fresh p js ks f e)

-- With more edges.
pub Extends-more :
    (E F : Edges) (Fresh : Option String → Type 0) (js ks : List DmJob)
    → ((s t : JobStatus) → E s t → F s t)
    → Extends E Fresh js ks
    → Extends F Fresh js ks
Extends-more E F Fresh _ _ more (added ks n) = added ks (
    All-map {P = NewRow E Fresh} {Q = NewRow F Fresh}
      (λ k r. record {
        path = elim r.path [ inl e ↦ inl e | inr e ↦ inr (more JobStatus.queued k.status e) ];
        fresh = r.fresh;
      })
      ks n)
Extends-more E F Fresh _ _ more (kept j k js ks l e) =
    kept j k js ks (Leads-more E F more j k l) (Extends-more E F Fresh js ks more e)
