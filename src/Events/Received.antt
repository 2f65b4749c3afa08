-- ===== src/Events/Received.antt =====
-- app/services/events.py and scripts/mock_pseudogram.py together: the deliveries of a simulation, and what
-- its tally has to do with the tables.
pub mod New
pub mod Keys
pub mod Marked
pub mod Truth
use linkplease_tech_assignme.Base.{
  ℕ, zero, suc, ◌+◌, ◌-◌, ◌≡◌, refl, sym, ap, ◌∙◌, Bool, true, false, not, ◌&&◌, ◌||◌, String,
  Option, none, some, List, [], ◌∷◌, ◌++◌, arith, All, All-append, All-map, map, length,
  length-append, any_where, any_where-append, add_text, truthy, str_eq, str_eq_refl, if◌then◌else◌,
  Bool-cases, inl, inr, subst, text_tests, str_eq_iff, some_eq, not_none, Option-cases,
}
use linkplease_tech_assignme.Config.{Settings}
use linkplease_tech_assignme.Models.{empty_db, DmJob, JobStatus, Db, Time, Rule, Event, CounterKey}
use linkplease_tech_assignme.Clock.{Datetime}
use linkplease_tech_assignme.Events.Ingest.{ingest_stores}
use linkplease_tech_assignme.Counters
use linkplease_tech_assignme.Counters.Laws.{get-increment_ne, get_frame, increment_frame}
use linkplease_tech_assignme.Matching.{in_text}
use linkplease_tech_assignme.Mock.Simulation.{
  Tally, no_tally, tally_one, tally_all, hits_keyword, sender, text_or, expected,
  expected_counting_redeliveries,
}
use linkplease_tech_assignme.Events.{
  WebhookEvent, new_event, store_event, handle_duplicate_event, ingest_event, IngestResult,
}
use linkplease_tech_assignme.Events.Store.{
  is_stored, store_cases, store_known, store_new, store_frame, duplicate_only_counts,
}
use linkplease_tech_assignme.Events.Burst.{
  member, member-add_more, member-add_text, add_known, length-add_new, IsSimulated,
  simulated_sender, new_event-IsComment, Repeats, came_before, duplicate_blocked,
}
use linkplease_tech_assignme.Jobs.Stats.{
  StatsOut, compute_stats, compute_stats-counts, count_status,
}
use linkplease_tech_assignme.Events.Processing.{process_all}
use linkplease_tech_assignme.Events.Processing.Accounting.{accounted}
use linkplease_tech_assignme.Events.Processing.OneRule.{
  Queue, Queue-frame, IsComment, rule_hits, users_after, users_of, hits_of, AreComments,
  process_all-Queue,
}

module _ (lower : String → String) (keyword : String) (r : Rule) (active : r.is_active ≡ 1)
    (normal : r.keyword_normalized ≡ lower keyword) (s : Settings) where
  pub hits_text :
      (p : WebhookEvent) (g : IsSimulated p)
      → hits_keyword lower keyword p ≡ rule_hits lower r active g.text
  hits_text p g = rw (g.text_is, normal) refl

  pub users_of-append :
      (es : List (Event × String × String)) (e : Event) (user text : String) (us : List String)
      → users_of lower r active (es ++ (e, user, text) ∷ []) us
        ≡ users_after lower r active user text (users_of lower r active es us)
  users_of-append [] e user text us = refl
  users_of-append ((e', user', text') ∷ es) e user text us =
      users_of-append es e user text (users_after lower r active user' text' us)

  pub hits_of-append :
      (es : List (Event × String × String)) (e : Event) (user text : String)
      → hits_of lower r active (es ++ (e, user, text) ∷ [])
        ≡ hits_of lower r active es + (if rule_hits lower r active text then 1 else 0)
  hits_of-append [] e user text = omega arith
  hits_of-append ((e', user', text') ∷ es) e user text =
      omega (arith, hits_of-append es e user text)

  -- What the simulation has noted of a payload that hits.
  abbrev pub Noted : Tally → WebhookEvent → Type 0
  Noted t q =
      hits_keyword lower keyword q ≡ true
      → (member q.event_id t.event_ids ≡ true) × (member (sender q) t.users ≡ true)

  -- The tables after the deliveries `history`, with the tally `t`.
  pub record Received (history : List WebhookEvent) (t : Tally) (db : Db) : Type 0 where
    pub queue : Queue r [] db
    pub no_jobs : db.jobs ≡ []
    pub rows : List (Event × String × String)
    pub rows_are : map (λ x. x.0) rows ≡ db.events
    pub comments : AreComments lower r active rows
    pub users_are : users_of lower r active rows [] ≡ t.users
    pub hits_are : hits_of lower r active rows ≡ length t.event_ids
    pub stored_are :
        (x : String)
        → is_stored x db ≡ any_where (λ (q : WebhookEvent). str_eq q.event_id x) history
    pub noted : All (Noted t) history
    pub ids_stored : (x : String) → member x t.event_ids ≡ true → is_stored x db ≡ true
    pub blocked :
        (if s.count_duplicate_events_as_blocked
          then Counters.get CounterKey.duplicates_blocked db + length t.event_ids
          else Counters.get CounterKey.duplicates_blocked db)
        ≡ (if s.count_duplicate_events_as_blocked then t.deliveries else 0)

  abbrev pub counts : WebhookEvent → ℕ
  counts p = if hits_keyword lower keyword p then 1 else 0

  -- The tally of one delivery.
  pub record Tallied (p : WebhookEvent) (t t' : Tally) : Type 0 where
    pub users :
        t'.users ≡ (if hits_keyword lower keyword p then add_text (sender p) t.users else t.users)
    pub event_ids :
        t'.event_ids
        ≡ (if hits_keyword lower keyword p then add_text p.event_id t.event_ids else t.event_ids)
    pub deliveries : t'.deliveries ≡ t.deliveries + counts p

  pub tally_one-Tallied : (p : WebhookEvent) (t : Tally) → Tallied p t (tally_one lower keyword p t)
  unfolding tally_one
  tally_one-Tallied p t = elim (Bool-cases (hits_keyword lower keyword p)) [
    | inl e ↦ record { users = rw e refl; event_ids = rw e refl; deliveries = rw e refl }
    | inr e ↦ record { users = rw e refl; event_ids = rw e refl; deliveries = rw e (omega arith) }
  ]

  still_member :
      (b : Bool) (x y : String) (xs : List String)
      → member x xs ≡ true
      → member x (if b then add_text y xs else xs) ≡ true
  still_member true x y xs h = member-add_more x y xs h
  still_member false x y xs h = h

  -- What was noted stays so, and the new payload is noted.
  pub Noted-more :
      (p : WebhookEvent) (t t' : Tally) (history : List WebhookEvent)
      → Tallied p t t'
      → All (Noted t) history
      → All (Noted t') history
  Noted-more p t t' history d a =
      All-map {P = Noted t} {Q = Noted t'}
        (λ q n h. (
          rw (d.event_ids) (
              still_member (hits_keyword lower keyword p) q.event_id p.event_id t.event_ids
                (n h).0),
          rw (d.users)
              (still_member (hits_keyword lower keyword p) (sender q) (sender p) t.users (n h).1),
        ))
        history a

  pub Noted-self : (p : WebhookEvent) (t t' : Tally) → Tallied p t t' → Noted t' p
  Noted-self p t t' d h = (
    rw (d.event_ids, h) (member-add_text p.event_id t.event_ids),
    rw (d.users, h) (member-add_text (sender p) t.users),
  )

  -- A known payload that hits was noted with its event and its sender.
  known_same :
      (p : WebhookEvent) (t t' : Tally)
      → Tallied p t t'
      → Noted t p
      → (t'.users ≡ t.users) × (t'.event_ids ≡ t.event_ids)
  known_same p t t' d n = elim (Bool-cases (hits_keyword lower keyword p)) [
    | inl e ↦ (
      d.users ∙ rw e (add_known (sender p) t.users (n e).1),
      d.event_ids ∙ rw e (add_known p.event_id t.event_ids (n e).0),
    )
    | inr e ↦ (d.users ∙ rw e refl, d.event_ids ∙ rw e refl)
  ]

  blocked_again :
      (c : Bool) (g g' n ids del del' : ℕ)
      → g' ≡ g + (if c then n else 0)
      → del' ≡ del + n
      → (if c then g + ids else g) ≡ (if c then del else 0)
      → (if c then g' + ids else g') ≡ (if c then del' else 0)
  blocked_again true g g' n ids del del' a b h = omega arith
  blocked_again false g g' n ids del del' a b h = omega arith

  -- The event is in the tables already.
  pub again-Received :
      (p : WebhookEvent) (history : List WebhookEvent) (t : Tally) (db : Db)
      → IsSimulated p
      → Repeats history p
      → is_stored p.event_id db ≡ true
      → Received history t db
      → Received (p ∷ history) (tally_one lower keyword p t) (handle_duplicate_event lower p s db)
  again-Received p history t db g rep k v =
      let t' = tally_one lower keyword p t in
      let db' = handle_duplicate_event lower p s db in
      let d = tally_one-Tallied p t in
      let frame = duplicate_only_counts lower p s db in
      let n = came_before (Noted t) p history rep (sym (v.stored_are p.event_id) ∙ k) v.noted in
      let (users, ids) = known_same p t t' d n in
      let stored : (x : String) → is_stored x db' ≡ is_stored x db = λ x.
        ap (any_where (λ (e : Event). str_eq e.event_id x)) (ap (λ (y : Db). y.events) frame) in
      record {
        queue =
            Queue-frame r [] db db' (ap (λ (y : Db). y.rules) frame)
              (ap (λ (y : Db). y.deleted_comments) frame) (ap (λ (y : Db). y.jobs) frame) v.queue;
        no_jobs = ap (λ (y : Db). y.jobs) frame ∙ v.no_jobs;
        rows = v.rows;
        rows_are = v.rows_are ∙ sym (ap (λ (y : Db). y.events) frame);
        comments = v.comments;
        users_are = v.users_are ∙ sym users;
        hits_are = v.hits_are ∙ ap length (sym ids);
        stored_are =
            λ x. stored x ∙ (v.stored_are x ∙ seen p history x (v.stored_are p.event_id) k);
        noted = (Noted-self p t t' d, Noted-more p t t' history d v.noted);
        ids_stored = λ x h. stored x ∙ v.ids_stored x (ap (member x) (sym ids) ∙ h);
        blocked =
            subst
              (λ l.
                (if s.count_duplicate_events_as_blocked
                  then Counters.get CounterKey.duplicates_blocked db' + l
                  else Counters.get CounterKey.duplicates_blocked db')
                ≡ (if s.count_duplicate_events_as_blocked then t'.deliveries else 0))
              (ap length (sym ids))
              (blocked_again s.count_duplicate_events_as_blocked _ _ (counts p) (length t.event_ids)
                t.deliveries t'.deliveries
                (duplicate_blocked lower r active s p g [] db v.queue ∙ rw (hits_text p g) refl)
                d.deliveries v.blocked);
      }
    where
      seen :
          (p : WebhookEvent) (history : List WebhookEvent) (x : String)
          → is_stored p.event_id db
            ≡ any_where (λ (q : WebhookEvent). str_eq q.event_id p.event_id) history
          → is_stored p.event_id db ≡ true
          → any_where (λ (q : WebhookEvent). str_eq q.event_id x) history
            ≡ (str_eq p.event_id x || any_where (λ (q : WebhookEvent). str_eq q.event_id x) history)
      seen p history x e k = elim (Bool-cases (str_eq p.event_id x)) [
        | inl same ↦ rw same (
            subst (λ y. any_where (λ (q : WebhookEvent). str_eq q.event_id y) history ≡ true)
              ((str_eq_iff p.event_id x).0 same) (sym e ∙ k))
        | inr other ↦ rw other refl
      ]
