-- ===== src/Events/Processing/OneRule.antt =====
-- app/services/events.py: a batch of comments where the table of rules holds one rule, and all jobs
-- wait to be sent.
use linkplease_tech_assignme.Base.{
  ℕ, suc, ◌+◌, ◌≡◌, refl, sym, ap, ◌∙◌, Bool, true, false, String, Option, none, some, List, [],
  ◌∷◌, ◌++◌, arith, All, All-append, map, length, any_where, add_text, truthy, str_eq, str_eq_refl,
  if◌then◌else◌, Bool-cases, inl, inr, subst,
}
use linkplease_tech_assignme.Models.{
  Db, Time, Rule, Event, EventStatus, DmJob, JobStatus, CounterKey, conflicts,
}
use linkplease_tech_assignme.Counters
use linkplease_tech_assignme.Counters.Laws.{increment_frame, get_frame}
use linkplease_tech_assignme.Matching.{in_text, active_rules, find_matching_rules}
use linkplease_tech_assignme.Jobs.{new_job, insert_job, create_job}
use linkplease_tech_assignme.Events.{event_comment_created, known_deleted, comment_is_deleted}
use linkplease_tech_assignme.Events.Processing.{
  create_jobs, created_by, process_comment_created, dispatch, finish_event, process_event,
  process_all, Fate,
}
use linkplease_tech_assignme.Events.Processing.Accounting.{
  accounted, process_comment_created-accounts,
}

abbrev Waiting : Rule → DmJob → Type 0
Waiting r j = (j.status ≡ JobStatus.queued) × (j.rule_id ≡ r.id)

-- One rule, no deleted comments, and one waiting job for each of the users, in this order.
pub record Queue (r : Rule) (users : List String) (db : Db) : Type 0 where
  pub rules : db.rules ≡ r ∷ []
  pub none_deleted : db.deleted_comments ≡ []
  pub users_are : map (λ (j : DmJob). j.user_id) db.jobs ≡ users
  pub waiting : All (Waiting r) db.jobs

pub Queue-frame :
    (r : Rule) (users : List String) (db db' : Db)
    → db'.rules ≡ db.rules
    → db'.deleted_comments ≡ db.deleted_comments
    → db'.jobs ≡ db.jobs
    → Queue r users db
    → Queue r users db'
Queue-frame r users db db' a b c q = record {
  rules = a ∙ q.rules;
  none_deleted = b ∙ q.none_deleted;
  users_are = ap (map (λ (j : DmJob). j.user_id)) c ∙ q.users_are;
  waiting = subst (All (Waiting r)) (sym c) q.waiting;
}

conflict_is_user :
    (r : Rule) (j : DmJob) (id : ℕ) (u : String) (c : Option String) (now : Time)
    → Waiting r j
    → conflicts j (new_job id r u c now) ≡ str_eq j.user_id u
unfolding conflicts new_job
conflict_is_user r j id u c now (s, e) = rw (s, e, str_eq_refl r.id) refl

any_conflicts :
    (r : Rule) (id : ℕ) (u : String) (c : Option String) (now : Time) (js : List DmJob)
    → All (Waiting r) js
    → any_where (λ j. conflicts j (new_job id r u c now)) js
      ≡ any_where (λ y. str_eq y u) (map (λ (j : DmJob). j.user_id) js)
any_conflicts r id u c now [] a = refl
any_conflicts r id u c now (j ∷ js) a =
    ground (arith, conflict_is_user r j id u c now a.0, any_conflicts r id u c now js a.1)

map-append :
    (js : List DmJob) (j : DmJob)
    → map (λ (k : DmJob). k.user_id) (js ++ j ∷ [])
      ≡ map (λ (k : DmJob). k.user_id) js ++ j.user_id ∷ []
map-append [] j = refl
map-append (k ∷ ks) j = ap (◌∷◌ k.user_id) (map-append ks j)

insert_for :
    (r : Rule) (u : String) (c : Option String) (now : Time) (users : List String) (db : Db)
    (b : Bool)
    → Queue r users db
    → any_where (λ y. str_eq y u) users ≡ b
    → insert_job (new_job db.next_job_id r u c now) db ≡ (
        if b
        then none
        else some (record db {
          jobs = db.jobs ++ new_job db.next_job_id r u c now ∷ [];
          next_job_id = suc db.next_job_id;
        }))
unfolding insert_job new_job
insert_for r u c now users db b q k =
    let same = any_conflicts r db.next_job_id u c now db.jobs q.waiting in
    let known = same ∙ (ap (any_where (λ y. str_eq y u)) q.users_are ∙ k) in
    rw (known, q.rules, str_eq_refl r.id) refl

-- A user gets a job if they have none yet.
create_job-Queue :
    (r : Rule) (u : String) (c : Option String) (now : Time) (users : List String) (db : Db)
    → Queue r users db
    → Queue r (add_text u users) (create_job r u c now db).1
unfolding create_job new_job
create_job-Queue r u c now users db q = elim (Bool-cases (any_where (λ y. str_eq y u) users)) [
  | inl k ↦
      let frame = increment_frame CounterKey.duplicates_blocked 1 db in
      rw (insert_for r u c now users db true q k, create_job, k)
        (Queue-frame r users db (Counters.increment CounterKey.duplicates_blocked 1 db)
          (ap (λ (d : Db). d.rules) frame) (ap (λ (d : Db). d.deleted_comments) frame)
          (ap (λ (d : Db). d.jobs) frame) q)
  | inr k ↦
      let job = new_job db.next_job_id r u c now in
      rw (insert_for r u c now users db false q k, create_job, k)
        (record {
          rules = q.rules;
          none_deleted = q.none_deleted;
          users_are = map-append db.jobs job ∙ ap (λ us. us ++ u ∷ []) q.users_are;
          waiting = All-append (Waiting r) db.jobs (job ∷ []) q.waiting ((refl, refl), tt);
        })
]

-- A new comment with a text, from a user with a name.
pub record IsComment (e : Event) (user text : String) : Type 0 where
  pub kind : str_eq e.event_type event_comment_created ≡ true
  pub user_is : e.user_id ≡ some user
  pub user_given : truthy (some user) ≡ true
  pub text_is : e.text ≡ some text
  pub text_given : truthy (some text) ≡ true

module _ (lower : String → String) (r : Rule) (active : r.is_active ≡ 1) where
  abbrev pub rule_hits : String → Bool
  rule_hits text = in_text r.keyword_normalized (lower text)

  pub found_rules :
      (text : String) (users : List String) (db : Db)
      → Queue r users db
      → truthy (some text) ≡ true
      → find_matching_rules lower (some text) db ≡ (if rule_hits text then r ∷ [] else [])
  unfolding find_matching_rules active_rules
  found_rules text users db q t = rw (t, q.rules) (ground arith)

  pub unknown_deleted :
      (c : Option String) (users : List String) (db : Db)
      → Queue r users db
      → known_deleted c db ≡ false
  unfolding known_deleted comment_is_deleted
  unknown_deleted none users db q = refl
  unknown_deleted (some c) users db q = rw (q.none_deleted) (ground arith)

  abbrev pub users_after : String → String → List String → List String
  users_after user text users = if rule_hits text then add_text user users else users

  jobs_for :
      (b : Bool) (user : String) (c : Option String) (now : Time) (users : List String) (db : Db)
      → Queue r users db
      → Queue r
          (if b then add_text user users else users)
          (create_jobs (if b then r ∷ [] else []) user c now db)
  unfolding create_jobs
  jobs_for true user c now users db q = create_job-Queue r user c now users db q
  jobs_for false user c now users db q = q

  process_created-Queue :
      (e : Event) (user text : String) (now : Time) (users : List String) (db : Db)
      → IsComment e user text
      → Queue r users db
      → Queue r (users_after user text users) (process_comment_created lower e now db).1
        × (accounted (process_comment_created lower e now db).1
            ≡ accounted db + (if rule_hits text then 1 else 0))
  unfolding process_comment_created created_by
  process_created-Queue e user text now users db c q =
      let found = found_rules text users db q c.text_given in
      let unknown = unknown_deleted e.comment_id users db q in
      (
        rw (c.user_is, process_comment_created)
            (rw (c.user_given, unknown, c.text_is, found)
              (jobs_for (rule_hits text) user e.comment_id now users db q)),
        (process_comment_created-accounts lower e user now db c.user_is c.user_given unknown).1
            ∙ rw (c.text_is, found) (ground arith),
      )

  -- What a comment adds to the queue and to the counts.
  abbrev Added : List String → Bool → String → Db → Db → Type 0
  Added users hit user db db' =
      Queue r (if hit then add_text user users else users) db'
      × (accounted db' ≡ accounted db + (if hit then 1 else 0))

  finished-Added :
      (users : List String) (hit : Bool) (user : String) (id : ℕ) (status : EventStatus)
      (now : Time) (db db' : Db)
      → Added users hit user db db'
      → Added users hit user db (finish_event id status now db')
  unfolding finish_event
  finished-Added users hit user id status now db db' (q, n) = (
    Queue-frame r (if hit then add_text user users else users) db' (finish_event id status now db')
        refl refl refl q,
    ap (λ g. length db'.jobs + g)
          (get_frame CounterKey.duplicates_blocked db' (finish_event id status now db') refl)
        ∙ n,
  )

  dispatch_created :
      (e : Event) (now : Time) (db : Db)
      → str_eq e.event_type event_comment_created ≡ true
      → dispatch lower e now db ≡ process_comment_created lower e now db
  unfolding dispatch
  dispatch_created e now db k = rw k refl

  process_event-Added :
      (e : Event) (user text : String) (now : Time) (users : List String) (db : Db)
      → IsComment e user text
      → Queue r users db
      → Added users (rule_hits text) user db (process_event lower e now db)
  unfolding process_event
  process_event-Added e user text now users db c q =
      finished-Added users (rule_hits text) user e.id (dispatch lower e now db).0 now db
        (dispatch lower e now db).1
        (subst (λ (x : EventStatus × Db). Added users (rule_hits text) user db x.1)
          (sym (dispatch_created e now db c.kind))
          (process_created-Queue e user text now users db c q))

  -- The users of the comments that the rule hits, and the number of these comments.
  abbrev pub users_of : List (Event × String × String) → List String → List String
  users_of [] users = users
  users_of ((e, user, text) ∷ es) users = users_of es (users_after user text users)

  abbrev pub hits_of : List (Event × String × String) → ℕ
  hits_of [] = 0
  hits_of ((e, user, text) ∷ es) = (if rule_hits text then 1 else 0) + hits_of es

  abbrev pub AreComments : List (Event × String × String) → Type 0
  AreComments = All (λ (x : Event × String × String). IsComment x.0 x.1 x.2)

  -- A batch of comments makes one job for each user that the rule hits, and counts the others.
  pub process_all-Queue :
      (es : List (Event × String × String)) (now : Time) (users : List String) (db : Db)
      → AreComments es
      → Queue r users db
      → let db' =
          (process_all lower (λ _. Fate.committed) (λ _ d. d) now (map (λ x. x.0) es) db).1 in
        Queue r (users_of es users) db' × (accounted db' ≡ accounted db + hits_of es)
  unfolding process_all
  process_all-Queue [] now users db c q = (q, omega arith)
  process_all-Queue ((e, user, text) ∷ es) now users db c q =
      let (q', n) = process_event-Added e user text now users db c.0 q in
      let (q'', m) =
        process_all-Queue es now (users_after user text users) (process_event lower e now db) c.1
          q' in
      (q'', omega (arith, n, m))
