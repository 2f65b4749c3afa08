-- ===== src/System/Workers.antt =====
-- app/main.py and app/workers: the start and the loop of the DM worker as transactions of System.
use linkplease_tech_assignme.Base.{
  ◌≡◌, refl, Bool, true, false, String, none, List, [], ◌∷◌, inl, inr, Bool-cases, map, subst, All,
  ◌⊎◌,
}
use linkplease_tech_assignme.Config.{Settings}
use linkplease_tech_assignme.Models.{Db}
use linkplease_tech_assignme.RateLimiter.{Limiter}
use linkplease_tech_assignme.Jobs.Sound.{HasBudgets}
use linkplease_tech_assignme.Counters.{seed_counters}
use linkplease_tech_assignme.Workers.DmWorker.{Surroundings, Course, run_once}
use linkplease_tech_assignme.Workers.DmWorker.Steps.{state, ByOthers, AtRestOthers, run_once-Steps}
use linkplease_tech_assignme.Workers.Manager.{recover_state}
use linkplease_tech_assignme.Workers.Start.{
  Clock, new_limiter, start_manager, start_if, lifespan_start,
}
use linkplease_tech_assignme.Workers.Loops.{
  Pass, at_once, after_wait, cancelled, run_forever, DmTurn, iteration, cut, claim_failed, dm_pass,
  dm_loop,
}
use linkplease_tech_assignme.System.{counters_seeded, limiter_started, restarted, Reachable}
use linkplease_tech_assignme.System.History.{Runs, and_then, single, Runs-append, Runs-Reachable}
use linkplease_tech_assignme.System.Invariant.{Reachable-Holds}

-- What a pass leaves.
abbrev pub after : {S : Type 0} → Pass S → S
after (at_once x) = x
after (after_wait x) = x
after (cancelled x) = x

pass_cases :
    {S : Type 0} (p : Pass S)
    → ((y : S) × (p ≡ at_once y)) ⊎ (((y : S) × (p ≡ after_wait y)) ⊎ ((y : S) × (p ≡ cancelled y)))
pass_cases (at_once y) = inl (y, refl)
pass_cases (after_wait y) = inr (inl (y, refl))
pass_cases (cancelled y) = inr (inr (y, refl))

-- What every pass keeps, a loop keeps.
run_forever-kept :
    {S : Type 0} (P : S → Type 1) (passes : List (S → Pass S)) (x : S)
    → All (λ pass. (y : S) → P y → P (after (pass y))) passes
    → P x
    → P (run_forever passes x).state
unfolding run_forever
run_forever-kept P [] x k h = h
run_forever-kept P (pass ∷ passes) x k h = elim (pass_cases (pass x)) [
  | inl (y, e) ↦
      rw (e, run_forever) (run_forever-kept P passes y k.1 (subst (λ p. P (after p)) e (k.0 x h)))
  | inr (inl (y, e)) ↦
      rw (e, run_forever) (run_forever-kept P passes y k.1 (subst (λ p. P (after p)) e (k.0 x h)))
  | inr (inr (y, e)) ↦ rw (e, run_forever) (subst (λ p. P (after p)) e (k.0 x h))
]

module _ (s : Settings) (lower : String → String) where
  -- A state between two iterations of the DM worker.
  abbrev pub AtRest : Db → Type 1
  AtRest db = Reachable s lower (state db none)

  -- What the others do during a pass is transactions.
  abbrev pub During : DmTurn → Type 1
  During (iteration w course) = ByOthers s lower w.meanwhile × AtRestOthers s lower w.in_pause
  During (cut w course) = ByOthers s lower w.meanwhile × AtRestOthers s lower w.in_pause
  During claim_failed = Unit

  -- And so is what they do before each pass.
  abbrev pub Turns : List ((Db → Db) × DmTurn) → Type 1
  Turns = All (λ (t : (Db → Db) × DmTurn). AtRestOthers s lower t.0 × During t.1)

  -- The tables after a run without a crash that begins and ends with no job in flight.
  abbrev pub Ran : Db → Db → Type 1
  Ran db db' = Runs s lower (state db none) (state db' none)

  module _ (b : HasBudgets s) (db0 : Db) (r : AtRest db0) where
    iterated :
        (w : Surroundings) (course : Course) (l : Limiter) (db : Db)
        → ByOthers s lower w.meanwhile
        → AtRestOthers s lower w.in_pause
        → Ran db0 db
        → Ran db0 (run_once s w course l db).db
    iterated w course l db o p h =
        let sound =
          (Reachable-Holds s lower b (state db none) (Runs-Reachable s lower _ _ r h)).sound in
        Runs-append _ _ _ h (run_once-Steps s lower w o p course l db sound.table)

    dm_pass-Ran :
        (t : DmTurn) (l : Limiter) (db : Db)
        → During t
        → Ran db0 db
        → Ran db0 (after (dm_pass s t (l, db))).1
    unfolding dm_pass
    dm_pass-Ran (iteration w course) l db o h =
        elim (Bool-cases (run_once s w course l db).handled) [
          | inl e ↦ rw e (iterated w course l db o.0 o.1 h)
          | inr e ↦ rw e (iterated w course l db o.0 o.1 h)
        ]
    dm_pass-Ran (cut w course) l db o h = iterated w course l db o.0 o.1 h
    dm_pass-Ran claim_failed l db o h = h

    dm_passes :
        (turns : List ((Db → Db) × DmTurn))
        → Turns turns
        → All
            (λ (pass : Limiter × Db → Pass (Limiter × Db)).
              (x : Limiter × Db) → Ran db0 x.1 → Ran db0 (after (pass x)).1)
            (map
              (λ (t : (Db → Db) × DmTurn). λ (x : Limiter × Db). dm_pass s t.1 (x.0, t.0 x.1))
              turns)
    dm_passes [] a = tt
    dm_passes (t ∷ ts) a = (
      λ x h. dm_pass-Ran t.1 x.0 (t.0 x.1) a.0.1 (Runs-append _ _ _ h (a.0.0 x.1)),
      dm_passes ts a.1,
    )

    pub dm_loop-Ran :
        (turns : List ((Db → Db) × DmTurn)) (l : Limiter) (db : Db)
        → Turns turns
        → Ran db0 db
        → Ran db0 (dm_loop s turns (l, db)).state.1
    unfolding dm_loop
    dm_loop-Ran turns l db a h =
        run_forever-kept (λ (x : Limiter × Db). Ran db0 x.1) _ (l, db) (dm_passes turns a) h

  start_if-Ran :
      (enabled : Bool) (c : Clock) (db : Db) → Ran db (start_if enabled s c (seed_counters db)).1
  unfolding start_if start_manager
  start_if-Ran true c db =
      let recovered = recover_state c.recovered_at c.stamped_at (seed_counters db) in
      and_then _ _ _ (counters_seeded (state db none)) (
        and_then _ _ _ (restarted c.recovered_at c.stamped_at (seed_counters db)) (
          single _ _
            (limiter_started c.log_read c.warmed_at (new_limiter s) (state recovered none))))
  start_if-Ran false c db = single _ _ (counters_seeded (state db none))

  lifespan-Ran : (c : Clock) (db : Db) → Ran db (lifespan_start s c db).1
  unfolding lifespan_start
  lifespan-Ran c db = start_if-Ran s.enable_workers c db

-- Where the settings allow a send and a delivery, and the other sessions make transactions: from tables
-- that the program reaches with no job in flight, the start of the application and then the loop of the
-- DM worker, through any number of passes, complete, cut short by a cancellation or failing, are one run
-- of transactions without a crash, and it ends with no job in flight: each job that was claimed was taken
-- through a reply, or its claim was released.
pub dm_worker_refines :
    (s : Settings) (lower : String → String) (b : HasBudgets s) (c : Clock)
    (turns : List ((Db → Db) × DmTurn)) (l : Limiter) (db : Db)
    → Turns s lower turns
    → AtRest s lower db
    → Ran s lower db (dm_loop s turns (l, (lifespan_start s c db).1)).state.1
dm_worker_refines s lower b c turns l db a r =
    dm_loop-Ran s lower b db r turns l (lifespan_start s c db).1 a (lifespan-Ran s lower c db)
