-- ===== src/Jobs/Sound.antt =====
-- The whole invariant of the jobs: a valid table, and every job within its retry budgets.
use linkplease_tech_assignme.Base.{
  ℕ, ◌<◌, ◌≡◌, true, String, Option, some, List, [], ◌∷◌, arith, All, All-append, All-update_where,
  ◌==◌, Bool-cases, Option-cases, inl, inr, is_empty, subst, some_eq, not_none,
}
use linkplease_tech_assignme.Config.{Settings}
use linkplease_tech_assignme.Models.{Db, Time, Rule, DmJob, CounterKey}
use linkplease_tech_assignme.Models.Slots.{other_conflicts, replace-SlotsUnique, replace-Ascending}
use linkplease_tech_assignme.Counters.Laws.{increment_frame}
use linkplease_tech_assignme.Jobs.{
  new_job, insert_job, create_job, cancel_jobs_for_comment, mark_sending, claim_first,
  claim_next_job, candidate_ids, requeue_stale_sending, cancellable_for, claimable, stale,
}
use linkplease_tech_assignme.Jobs.Outcomes.{save_job}
use linkplease_tech_assignme.Jobs.Outcomes.Budget.{
  awaits_send, IsWithinBudget, new_job-IsWithinBudget, waiting_budget,
}
use linkplease_tech_assignme.Jobs.Table.{
  JobsValid, insert_job-eq-some, create_job-JobsValid, cancel_jobs-JobsValid,
  mark_sending-JobsValid, requeue_stale-JobsValid,
}

-- The settings allow at least one send and one delivery.
pub record HasBudgets (s : Settings) : Type 0 where
  pub sends : 0 < s.max_dm_attempts
  pub deliveries : 0 < s.max_delivery_attempts

pub record IsSound (s : Settings) (db : Db) : Type 0 where
  pub table : JobsValid db
  pub budgets : All (IsWithinBudget s) db.jobs

-- The invariant reads the jobs and their next key alone.
pub IsSound-frame :
    (s : Settings) (db db' : Db)
    → db'.jobs ≡ db.jobs
    → db'.next_job_id ≡ db.next_job_id
    → IsSound s db
    → IsSound s db'
IsSound-frame s db db' e n v = record { table = rw (e, n) v.table; budgets = rw e v.budgets }

pub create_job-IsSound :
    (s : Settings) (rule : Rule) (user : String) (comment : Option String) (now : Time) (db : Db)
    → HasBudgets s
    → IsSound s db
    → IsSound s (create_job rule user comment now db).1
unfolding create_job
create_job-IsSound s rule user comment now db b v = record {
  table = create_job-JobsValid rule user comment now db v.table;
  budgets = elim (Option-cases (insert_job (new_job db.next_job_id rule user comment now) db)) [
    | inl e ↦ rw (e, create_job) (rw (increment_frame CounterKey.duplicates_blocked 1 db) v.budgets)
    | inr (db', e) ↦
        let (_, _, same) = insert_job-eq-some (new_job db.next_job_id rule user comment now) db e in
        rw (e, create_job)
          (rw same (
            All-append (IsWithinBudget s) db.jobs
              (new_job db.next_job_id rule user comment now ∷ []) v.budgets
              (
                new_job-IsWithinBudget s db.next_job_id rule user comment now b.sends b.deliveries,
                tt,
              )))
  ];
}

cancellable-awaits :
    (c : String) (j : DmJob) → cancellable_for c j ≡ true → awaits_send j.status ≡ true
unfolding cancellable_for
cancellable-awaits c j h = ground arith

claimable-awaits : (id : ℕ) (j : DmJob) → claimable id j ≡ true → awaits_send j.status ≡ true
unfolding claimable
claimable-awaits id j h = ground arith

stale-awaits : (n : ℕ) (now : Time) (j : DmJob) → stale now n j ≡ true → awaits_send j.status ≡ true
unfolding stale
stale-awaits n now j h = ground arith

pub cancel_jobs-IsSound :
    (s : Settings) (comment : String) (now : Time) (db : Db)
    → IsSound s db
    → IsSound s (cancel_jobs_for_comment comment now db).1
unfolding cancel_jobs_for_comment
cancel_jobs-IsSound s comment now db v = record {
  table = cancel_jobs-JobsValid comment now db v.table;
  budgets = elim (Bool-cases (is_empty comment)) [
    | inl e ↦ rw (e, cancel_jobs_for_comment) v.budgets
    | inr e ↦
        rw (e, cancel_jobs_for_comment)
          (All-update_where (IsWithinBudget s) (cancellable_for comment) _ db.jobs
            (λ j h b. waiting_budget s j j.status (cancellable-awaits comment j h) b) v.budgets)
  ];
}

pub mark_sending-IsSound :
    (s : Settings) (id : ℕ) (stamp : Time) (db : Db)
    → IsSound s db
    → IsSound s (mark_sending id stamp db)
unfolding mark_sending
mark_sending-IsSound s id stamp db v = record {
  table = mark_sending-JobsValid id stamp db v.table;
  budgets =
      All-update_where (IsWithinBudget s) (claimable id) _ db.jobs
        (λ j h b. waiting_budget s j j.status (claimable-awaits id j h) b) v.budgets;
}

claim_first-IsSound :
    (s : Settings) (ids : List ℕ) (stamp : Time) (db : Db)
    → IsSound s db
    → IsSound s (claim_first ids stamp db).1
unfolding claim_first
claim_first-IsSound s [] stamp db v = v
claim_first-IsSound s (id ∷ ids) stamp db v =
    ground (arith, claim_first-IsSound s ids stamp db v, mark_sending-IsSound s id stamp db v)

pub claim_next_job-IsSound :
    (s : Settings) (now stamp : Time) (db : Db)
    → IsSound s db
    → IsSound s (claim_next_job now stamp db).1
unfolding claim_next_job
claim_next_job-IsSound s now stamp db v = claim_first-IsSound s (candidate_ids now db) stamp db v

pub requeue_stale-IsSound :
    (s : Settings) (n : ℕ) (now stamp : Time) (db : Db)
    → IsSound s db
    → IsSound s (requeue_stale_sending n now stamp db).1
unfolding requeue_stale_sending
requeue_stale-IsSound s n now stamp db v = record {
  table = requeue_stale-JobsValid n now stamp db v.table;
  budgets =
      All-update_where (IsWithinBudget s) (stale now n) _ db.jobs
        (λ j h b. waiting_budget s j j.status (stale-awaits n now j h) b) v.budgets;
}

-- Where the index admits the flush of a row that is within its budgets and has a key of the table, the
-- table stays valid and every job within its budgets.
pub save_job-IsSound :
    (s : Settings) (job : DmJob) (db : Db) {db' : Db}
    → job.id < db.next_job_id
    → IsWithinBudget s job
    → IsSound s db
    → save_job job db ≡ some db'
    → IsSound s db'
unfolding save_job
save_job-IsSound s job db old b v h = elim (Bool-cases (other_conflicts job db.jobs)) [
  | inl e ↦ absurd (not_none (rw e at h))
  | inr e ↦ subst (IsSound s) (some_eq (rw e at h)) (record {
    table = record {
      ascending = replace-Ascending job 0 db.jobs v.table.ascending;
      below =
          All-update_where (λ j. j.id < db.next_job_id) (λ x. x.id == job.id) (λ _. job) db.jobs
            (λ _ _ _. old) v.table.below;
      slots = replace-SlotsUnique job 0 db.jobs v.table.ascending v.table.slots e;
    };
    budgets =
        All-update_where (IsWithinBudget s) (λ x. x.id == job.id) (λ _. job) db.jobs (λ _ _ _. b)
          v.budgets;
  })
]
