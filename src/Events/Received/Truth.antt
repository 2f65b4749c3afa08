-- ===== src/Events/Received/Truth.antt =====
-- app/services/events.py, app/services/jobs.py and scripts/mock_pseudogram.py together: a simulation, its
-- batch of events, and the statistics.
use linkplease_tech_assignme.Base.{
  ℕ, suc, ◌+◌, ◌≡◌, refl, sym, ap, ◌∙◌, Bool, true, false, String, Option, none, some, List, [],
  ◌∷◌, arith, All, map, length, if◌then◌else◌, inl, inr, subst, some_eq, not_none, Option-cases,
  ◌≤◌,
}
use linkplease_tech_assignme.Config.{Settings}
use linkplease_tech_assignme.Models.{empty_db, DmJob, JobStatus, Db, Time, Rule, Event, CounterKey}
use linkplease_tech_assignme.Clock.{Datetime}
use linkplease_tech_assignme.Events.Ingest.{ingest_stores}
use linkplease_tech_assignme.Counters
use linkplease_tech_assignme.Mock.Simulation.{
  Tally, no_tally, tally_one, tally_all, expected, expected_counting_redeliveries,
}
use linkplease_tech_assignme.Events.{WebhookEvent, ingest_event, IngestResult}
use linkplease_tech_assignme.Events.Burst.{IsSimulated, Repeats}
use linkplease_tech_assignme.Jobs.Stats.{
  StatsOut, compute_stats, compute_stats-counts, count_status,
}
use linkplease_tech_assignme.Events.Processing.{process_all, process_pending_events, Fate}
use linkplease_tech_assignme.Events.Processing.Claiming.{mark, claim_all}
use linkplease_tech_assignme.Events.Received.Keys.{HasWaiting, store-HasWaiting}
use linkplease_tech_assignme.Counters.Laws.{get_frame}
use linkplease_tech_assignme.Events.Processing.Accounting.{accounted}
use linkplease_tech_assignme.Events.Processing.OneRule.{Queue, Queue-frame, process_all-Queue}
use linkplease_tech_assignme.Events.Received.{Received}
use linkplease_tech_assignme.Events.Received.Marked.{
  marked, map-marked, marked-AreComments, users_of-marked, hits_of-marked,
}
use linkplease_tech_assignme.Events.Received.New.{store-Received}

-- The receiver stores the deliveries one after the other. `none` is an exception of one of them.
unfoldable pub receive_all :
    (String → String)
    → (String → Option Datetime)
    → Settings
    → List (WebhookEvent × Time)
    → Db
    → Option Db
receive_all lower from_iso s [] db = some db
receive_all lower from_iso s ((p, now) ∷ ds) db = elim (ingest_event lower from_iso s p now db) [
  | none ↦ none
  | some (_, db') ↦ receive_all lower from_iso s ds db'
]

-- The deliveries of a simulation, after those of `history`.
unfoldable pub Simulates : List WebhookEvent → List (WebhookEvent × Time) → Type 0
Simulates history [] = Unit
Simulates history ((p, now) ∷ ds) = IsSimulated p × Repeats history p × Simulates (p ∷ history) ds

module _ (lower : String → String) (from_iso : String → Option Datetime) (keyword : String)
    (r : Rule) (active : r.is_active ≡ 1) (normal : r.keyword_normalized ≡ lower keyword)
    (s : Settings) where
  all-Received :
      (ds : List (WebhookEvent × Time)) (history : List WebhookEvent) (t : Tally) (db db' : Db)
      → Simulates history ds
      → Received lower keyword r active normal s history t db
      → receive_all lower from_iso s ds db ≡ some db'
      → (h : List WebhookEvent) × Received lower keyword r active normal s h
          (tally_all lower keyword (map (λ x. x.0) ds) t)
          db'
  unfolding receive_all Simulates tally_all
  all-Received [] history t db db' g v e =
      (history, subst (Received lower keyword r active normal s history t) (some_eq e) v)
  all-Received ((p, now) ∷ ds) history t db db' g v e =
      elim (Option-cases (ingest_event lower from_iso s p now db)) [
        | inl n ↦ absurd (not_none (rw (n, receive_all) at e))
        | inr (x, f) ↦
            let (sent, stored) = ingest_stores lower from_iso s p now db x f in
            all-Received ds (p ∷ history) (tally_one lower keyword p t) x.1 db' g.2
              (subst
                (λ (z : IngestResult × Db).
                  Received lower keyword r active normal s (p ∷ history)
                    (tally_one lower keyword p t) z.1)
                stored
                (store-Received lower keyword r active normal s p sent now history t db g.0 g.1 v))
              (rw (f, receive_all) at e)
      ]

  abbrev pub one_rule : Db
  one_rule = record empty_db { rules = r ∷ [] }

  at_first : Received lower keyword r active normal s [] no_tally one_rule
  unfolding Counters.get
  at_first = record {
    queue = record { rules = refl; none_deleted = refl; users_are = refl; waiting = tt };
    no_jobs = refl;
    rows = [];
    rows_are = refl;
    comments = tt;
    users_are = refl;
    hits_are = refl;
    stored_are = λ x. refl;
    noted = tt;
    ids_stored = λ x h. absurd (cc);
    blocked = first_blocked s.count_duplicate_events_as_blocked;
  }
    where
      first_blocked :
          (c : Bool)
          → (if c
              then Counters.get CounterKey.duplicates_blocked one_rule + 0
              else Counters.get CounterKey.duplicates_blocked one_rule)
            ≡ (if c then 0 else 0)
      first_blocked true = refl
      first_blocked false = refl

  length_users : (js : List DmJob) → length (map (λ (j : DmJob). j.user_id) js) ≡ length js
  length_users [] = refl
  length_users (j ∷ js) = ap suc (length_users js)

  none_cancelled :
      (js : List DmJob)
      → All (λ (j : DmJob). (j.status ≡ JobStatus.queued) × (j.rule_id ≡ r.id)) js
      → count_status JobStatus.cancelled js ≡ 0
  none_cancelled [] a = refl
  none_cancelled (j ∷ js) a = rw (a.0.0) (ground (arith, none_cancelled js a.1))

  all-HasWaiting :
      (ds : List (WebhookEvent × Time)) (db db' : Db)
      → HasWaiting db
      → receive_all lower from_iso s ds db ≡ some db'
      → HasWaiting db'
  unfolding receive_all
  all-HasWaiting [] db db' w e = subst HasWaiting (some_eq e) w
  all-HasWaiting ((p, now) ∷ ds) db db' w e =
      elim (Option-cases (ingest_event lower from_iso s p now db)) [
        | inl n ↦ absurd (not_none (rw (n, receive_all) at e))
        | inr (x, f) ↦
            let (sent, stored) = ingest_stores lower from_iso s p now db x f in
            all-HasWaiting ds x.1 db'
              (subst (λ (z : IngestResult × Db). HasWaiting z.1) stored
                (store-HasWaiting lower s p sent now db w))
              (rw (f, receive_all) at e)
      ]

  abbrev with_marks : Db → Db
  with_marks db = record db { events = map mark db.events }

  batch_of :
      {h : List WebhookEvent} {t : Tally} {db : Db}
      (v : Received lower keyword r active normal s h t db) (now : Time)
      → let db' =
          (process_all lower
            (λ _. Fate.committed)
            (λ _ d. d)
            now
            (map mark db.events)
            (with_marks db)).1 in
        Queue r t.users db' × (accounted db' ≡ accounted db + length t.event_ids)
  batch_of {h} {t} {db} v now =
      let (q, n) =
        process_all-Queue lower r active (marked v.rows) now [] (with_marks db)
          (marked-AreComments lower r active v.rows v.comments)
          (Queue-frame r [] db (with_marks db) refl refl refl v.queue) in
      let before = get_frame CounterKey.duplicates_blocked db (with_marks db) refl in
      let rows_are = map-marked v.rows ∙ ap (map mark) v.rows_are in
      subst
        (λ (es : List Event).
          let db' = (process_all lower (λ _. Fate.committed) (λ _ d. d) now es (with_marks db)).1 in
          Queue r t.users db' × (accounted db' ≡ accounted db + length t.event_ids))
        rows_are
        (
          subst
              (λ us.
                Queue r us
                  (process_all lower (λ _. Fate.committed) (λ _ d. d) now
                    (map (λ x. x.0) (marked v.rows)) (with_marks db)).1)
              (users_of-marked lower r active v.rows [] ∙ v.users_are) q,
          omega (arith, n, before, hits_of-marked lower r active v.rows, v.hits_are),
        )

  -- The truth of the simulation, by the reading that the settings choose.
  abbrev pub truth : List (WebhookEvent × Time) → StatsOut
  truth ds =
      let t = tally_all lower keyword (map (λ x. x.0) ds) no_tally in
      if s.count_duplicate_events_as_blocked then expected_counting_redeliveries t else expected t

  counted :
      (c : Bool) (t : Tally) (g0 g jobs : ℕ)
      → (if c then g0 + length t.event_ids else g0) ≡ (if c then t.deliveries else 0)
      → jobs ≡ length t.users
      → jobs + g ≡ g0 + length t.event_ids
      → (jobs ≡ (if c then expected_counting_redeliveries t else expected t).sent)
        × (g ≡ (if c then expected_counting_redeliveries t else expected t).duplicates_blocked)
  unfolding expected expected_counting_redeliveries
  counted true t g0 g jobs a b h = (b, omega (arith, a, b, h))
  counted false t g0 g jobs a b h = (b, omega (arith, a, b, h))

  pending_is :
      (limit now : ℕ) (db : Db)
      → HasWaiting db
      → length db.events ≤ limit
      → process_pending_events lower (λ _. Fate.committed) (λ _ d. d) now limit db
        ≡ process_all lower
            (λ _. Fate.committed)
            (λ _ d. d)
            now
            (map mark db.events)
            (with_marks db)
  unfolding process_pending_events
  pending_is limit now db w enough = rw (claim_all limit db w.ascend w.received enough) refl

  -- The statistics, from the queue after the batch and its counts.
  told :
      (t : Tally) (db db' : Db)
      → db.jobs ≡ []
      → (if s.count_duplicate_events_as_blocked
          then Counters.get CounterKey.duplicates_blocked db + length t.event_ids
          else Counters.get CounterKey.duplicates_blocked db)
        ≡ (if s.count_duplicate_events_as_blocked then t.deliveries else 0)
      → Queue r t.users db'
      → accounted db' ≡ accounted db + length t.event_ids
      → let stats = compute_stats db' in
        let truth =
          if s.count_duplicate_events_as_blocked
          then expected_counting_redeliveries t
          else expected t in
        (stats.sent + stats.failed + stats.queued ≡ truth.sent)
        × (stats.duplicates_blocked ≡ truth.duplicates_blocked)
  unfolding compute_stats
  told t db db' no_jobs known q n =
      let (_, _, _, total) = compute_stats-counts db' in
      let jobs : length db'.jobs ≡ length t.users =
        sym (length_users db'.jobs) ∙ ap length q.users_are in
      let (sent, blocked) =
        counted s.count_duplicate_events_as_blocked t _ _ (length db'.jobs) known jobs
          (omega (arith, n, ap (λ (js : List DmJob). length js) no_jobs)) in
      (omega (arith, total, none_cancelled db'.jobs q.waiting, sent), blocked)

  -- Where a simulation of comments meets tables that are empty but for one active rule with its keyword,
  -- and a redelivery repeats its payload, then after the deliveries and a batch that is large enough for
  -- their events, in none of which the database raises and between which no other session writes, the statistics agree with the truth that the
  -- simulation tells, by either reading of the duplicates: the jobs sent, failed and queued are together
  -- as many as it expects to be sent, and `duplicates_blocked` is what it expects.
  pub stats_match_truth :
      (ds : List (WebhookEvent × Time)) (limit : ℕ) (now : Time) (db : Db)
      → Simulates [] ds
      → receive_all lower from_iso s ds one_rule ≡ some db
      → length db.events ≤ limit
      → let stats =
          compute_stats
            (process_pending_events lower (λ _. Fate.committed) (λ _ d. d) now limit db).1 in
        (stats.sent + stats.failed + stats.queued ≡ (truth ds).sent)
        × (stats.duplicates_blocked ≡ (truth ds).duplicates_blocked)
  stats_match_truth ds limit now db g e enough =
      let (h, v) = all-Received ds [] no_tally one_rule db g at_first e in
      let w = all-HasWaiting ds one_rule db (record { ascend = tt; received = tt; below = tt }) e in
      let t = tally_all lower keyword (map (λ x. x.0) ds) no_tally in
      let (q, n) = batch_of v now in
      subst
        (λ (x : Option ℕ × Db).
          let stats = compute_stats x.1 in
          (stats.sent + stats.failed + stats.queued ≡ (truth ds).sent)
          × (stats.duplicates_blocked ≡ (truth ds).duplicates_blocked))
        (sym (pending_is limit now db w enough))
        (told t db
          (process_all lower (λ _. Fate.committed) (λ _ d. d) now (map mark db.events)
            (with_marks db)).1
          v.no_jobs v.blocked q n)
