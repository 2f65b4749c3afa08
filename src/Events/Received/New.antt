-- ===== src/Events/Received/New.antt =====
-- app/services/events.py and scripts/mock_pseudogram.py together: a delivery that is stored, or known.
use linkplease_tech_assignme.Base.{
  ℕ, suc, ◌+◌, ◌≡◌, refl, sym, ap, ◌∙◌, Bool, true, false, ◌||◌, String, Option, List, [], ◌∷◌,
  ◌++◌, arith, All-append, map, length, any_where, any_where-append, add_text, str_eq,
  if◌then◌else◌, Bool-cases, inl, inr,
}
use linkplease_tech_assignme.Config.{Settings}
use linkplease_tech_assignme.Models.{Db, Time, Rule, Event, CounterKey}
use linkplease_tech_assignme.Counters
use linkplease_tech_assignme.Counters.Laws.{get-increment_ne, get_frame, increment_frame}
use linkplease_tech_assignme.Mock.Simulation.{Tally, tally_one, hits_keyword}
use linkplease_tech_assignme.Events.{WebhookEvent, new_event, store_event}
use linkplease_tech_assignme.Events.Store.{is_stored, store_known, store_new}
use linkplease_tech_assignme.Events.Burst.{
  member, length-add_new, IsSimulated, simulated_sender, new_event-IsComment, Repeats,
}
use linkplease_tech_assignme.Events.Processing.OneRule.{Queue-frame, users_after}
use linkplease_tech_assignme.Events.Received.{
  hits_text, users_of-append, hits_of-append, Received, counts, Tallied, tally_one-Tallied,
  Noted-more, Noted-self, again-Received,
}

module _ (lower : String → String) (keyword : String) (r : Rule) (active : r.is_active ≡ 1)
    (normal : r.keyword_normalized ≡ lower keyword) (s : Settings) where
  -- The tables with one more event, counted.
  abbrev with_event : Event → Db → Db
  with_event e db =
      Counters.increment CounterKey.events_received 1
        (record db { events = db.events ++ e ∷ []; next_event_id = suc db.next_event_id })

  with_event_frame :
      (e : Event) (db : Db)
      → with_event e db ≡ record db {
        events = db.events ++ e ∷ [];
        next_event_id = suc db.next_event_id;
        counters = (with_event e db).counters;
      }
  with_event_frame e db =
      increment_frame CounterKey.events_received 1
        (record db { events = db.events ++ e ∷ []; next_event_id = suc db.next_event_id })

  with_event-blocked :
      (e : Event) (db : Db)
      → Counters.get CounterKey.duplicates_blocked (with_event e db)
        ≡ Counters.get CounterKey.duplicates_blocked db
  with_event-blocked e db =
      let more = record db { events = db.events ++ e ∷ []; next_event_id = suc db.next_event_id } in
      get-increment_ne CounterKey.events_received CounterKey.duplicates_blocked 1 more (λ same. cc)
      ∙ get_frame CounterKey.duplicates_blocked db more refl

  map_rows :
      (rows : List (Event × String × String)) (e : Event) (user text : String)
      → map (λ (x : Event × String × String). x.0) (rows ++ (e, user, text) ∷ [])
        ≡ map (λ (x : Event × String × String). x.0) rows ++ e ∷ []
  map_rows [] e user text = refl
  map_rows ((e', _, _) ∷ rows) e user text = ap (◌∷◌ e') (map_rows rows e user text)

  length-ids :
      (p : WebhookEvent) (t t' : Tally)
      → Tallied lower keyword r active normal s p t t'
      → member p.event_id t.event_ids ≡ false
      → length t'.event_ids ≡ length t.event_ids + counts lower keyword r active normal s p
  length-ids p t t' d free = elim (Bool-cases (hits_keyword lower keyword p)) [
    | inl e ↦ ap length d.event_ids ∙ rw e (length-add_new p.event_id t.event_ids free)
    | inr e ↦ ap length d.event_ids ∙ rw e (omega arith)
  ]

  blocked_new :
      (c : Bool) (g g' n ids ids' del del' : ℕ)
      → g' ≡ g
      → ids' ≡ ids + n
      → del' ≡ del + n
      → (if c then g + ids else g) ≡ (if c then del else 0)
      → (if c then g' + ids' else g') ≡ (if c then del' else 0)
  blocked_new true g g' n ids ids' del del' a i b h = omega arith
  blocked_new false g g' n ids ids' del del' a i b h = omega arith

  -- A member of the new set is a member of the old one, or the new event.
  id_stored :
      (b : Bool) (x y : String) (xs : List String) (m : Bool)
      → (member x xs ≡ true → m ≡ true)
      → member x (if b then add_text y xs else xs) ≡ true
      → (m || str_eq y x) ≡ true
  id_stored false x y xs m f h = rw (f h) refl
  id_stored true x y xs m f h = elim (Bool-cases (member y xs)) [
    | inl e ↦ rw (f (rw e at h)) refl
    | inr e ↦
        let h' : member x (xs ++ y ∷ []) ≡ true = rw e at h in
        last x y xs m f (sym (any_where-append (λ z. str_eq z x) xs (y ∷ [])) ∙ h')
  ]
    where
      last :
          (x y : String) (xs : List String) (m : Bool)
          → (member x xs ≡ true → m ≡ true)
          → (member x xs || (str_eq y x || false)) ≡ true
          → (m || str_eq y x) ≡ true
      last x y xs m f h = elim (Bool-cases (member x xs)) [
        | inl e ↦ rw (f e) refl
        | inr e ↦ ground (arith)
      ]

  -- The event is new.
  new-Received :
      (p : WebhookEvent) (sent : Option Time) (now : Time) (history : List WebhookEvent) (t : Tally)
      (db : Db)
      → IsSimulated p
      → is_stored p.event_id db ≡ false
      → Received lower keyword r active normal s history t db
      → Received lower keyword r active normal s
          (p ∷ history)
          (tally_one lower keyword p t)
          (with_event (new_event db.next_event_id p sent now) db)
  unfolding new_event
  new-Received p sent now history t db g k v =
      let e = new_event db.next_event_id p sent now in
      let t' = tally_one lower keyword p t in
      let db' = with_event e db in
      let d = tally_one-Tallied lower keyword r active normal s p t in
      let frame = with_event_frame e db in
      let free : member p.event_id t.event_ids ≡ false = fresh_id p.event_id v k in
      let stored : (x : String) → is_stored x db' ≡ (is_stored x db || str_eq p.event_id x) = λ x.
        ap (any_where (λ (f : Event). str_eq f.event_id x)) (ap (λ (y : Db). y.events) frame)
        ∙ (any_where-append (λ (f : Event). str_eq f.event_id x) db.events (e ∷ [])
            ∙ ground arith) in
      record {
        queue =
            Queue-frame r [] db db' (ap (λ (y : Db). y.rules) frame)
              (ap (λ (y : Db). y.deleted_comments) frame) (ap (λ (y : Db). y.jobs) frame) v.queue;
        no_jobs = ap (λ (y : Db). y.jobs) frame ∙ v.no_jobs;
        rows = v.rows ++ (e, g.user, g.text) ∷ [];
        rows_are =
            map_rows v.rows e g.user g.text
            ∙ (ap (λ es. es ++ e ∷ []) v.rows_are ∙ sym (ap (λ (y : Db). y.events) frame));
        comments =
            All-append _ v.rows ((e, g.user, g.text) ∷ []) v.comments
              (new_event-IsComment db.next_event_id p sent now g, tt);
        users_are =
            users_of-append lower keyword r active normal s v.rows e g.user g.text []
            ∙ (ap (users_after lower r active g.user g.text) v.users_are
                ∙ sym (
                    d.users
                    ∙ rw (hits_text lower keyword r active normal s p g, simulated_sender p g)
                        refl));
        hits_are =
            hits_of-append lower keyword r active normal s v.rows e g.user g.text
            ∙ (rw (v.hits_are, sym (hits_text lower keyword r active normal s p g)) refl
                ∙ sym (length-ids p t t' d free));
        stored_are = λ x.
            stored x
            ∙ (rw (v.stored_are x) (
                or_comm (any_where (λ (q : WebhookEvent). str_eq q.event_id x) history)
                  (str_eq p.event_id x)));
        noted = (
          Noted-self lower keyword r active normal s p t t' d,
          Noted-more lower keyword r active normal s p t t' history d v.noted,
        );
        ids_stored = λ x h.
            stored x
            ∙ id_stored (hits_keyword lower keyword p) x p.event_id t.event_ids (is_stored x db)
                (v.ids_stored x) (ap (member x) (sym d.event_ids) ∙ h);
        blocked =
            blocked_new s.count_duplicate_events_as_blocked _ _
              (counts lower keyword r active normal s p) (length t.event_ids) (length t'.event_ids)
              t.deliveries t'.deliveries (with_event-blocked e db) (length-ids p t t' d free)
              d.deliveries v.blocked;
      }
    where
      or_comm : (a b : Bool) → (a || b) ≡ (b || a)
      or_comm a b = ground arith

      fresh_id :
          {history : List WebhookEvent} {t : Tally} {db : Db} (id : String)
          → Received lower keyword r active normal s history t db
          → is_stored id db ≡ false
          → member id t.event_ids ≡ false
      fresh_id {history} {t} {db} id v k = elim (Bool-cases (member id t.event_ids)) [
        | inl e ↦ absurd (ground (arith, v.ids_stored id e, k))
        | inr e ↦ e
      ]

  pub store-Received :
      (p : WebhookEvent) (sent : Option Time) (now : Time) (history : List WebhookEvent) (t : Tally)
      (db : Db)
      → IsSimulated p
      → Repeats history p
      → Received lower keyword r active normal s history t db
      → Received lower keyword r active normal s
          (p ∷ history)
          (tally_one lower keyword p t)
          (store_event lower s p sent now db).1
  store-Received p sent now history t db g rep v = elim (Bool-cases (is_stored p.event_id db)) [
    | inl k ↦
        rw (store_known lower s p sent now db k)
          (again-Received lower keyword r active normal s p history t db g rep k v)
    | inr k ↦ rw (store_new lower s p sent now db k) (new-Received p sent now history t db g k v)
  ]
