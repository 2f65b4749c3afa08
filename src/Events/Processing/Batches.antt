-- ===== src/Events/Processing/Batches.antt =====
-- app/services/events.py, process_pending_events: the claimed events after the batch.
use linkplease_tech_assignme.Base.{
  ℕ, ◌≡◌, refl, sym, ap, ◌∙◌, Bool, true, false, String, Option, some, List, [], ◌∷◌, arith, All,
  update_where, count_where, ◌==◌, ◌⊎◌, Bool-cases, inl, inr, subst,
}
use linkplease_tech_assignme.Models.{Db, Time, Event, EventStatus}
use linkplease_tech_assignme.Events.Processing.{
  dispatch, finish_event, process_event, set_event_status, receive_again, Fate, process_all,
  claim_pending_events, process_pending_events, one_counted,
}
use linkplease_tech_assignme.Events.Processing.Recovery.{is_processing}
use linkplease_tech_assignme.Events.Processing.Dispatching.{dispatch-Dispatched}

-- No row with this key is `processing`.
abbrev pub NotHeld : ℕ → Db → Type 0
NotHeld id db = All (λ (e : Event). (e.id == id) ≡ true → is_processing e ≡ false) db.events

-- A write of a status that is an end to the rows with a key.
written_self :
    (id : ℕ) (f : Event → Event) (es : List Event)
    → ((e : Event) → is_processing (f e) ≡ false)
    → ((e : Event) → (f e).id ≡ e.id)
    → All
        (λ (e : Event). (e.id == id) ≡ true → is_processing e ≡ false)
        (update_where (λ (e : Event). e.id == id) f es)
written_self id f [] ends keys = tt
written_self id f (e ∷ es) ends keys = elim (Bool-cases (e.id == id)) [
  | inl t ↦ rw t ((λ _. ends e), written_self id f es ends keys)
  | inr t ↦ rw t ((λ h. absurd (ground (arith, t, h))), written_self id f es ends keys)
]

written_other :
    (i id : ℕ) (f : Event → Event) (es : List Event)
    → ((e : Event) → is_processing (f e) ≡ false)
    → All (λ (e : Event). (e.id == i) ≡ true → is_processing e ≡ false) es
    → All
        (λ (e : Event). (e.id == i) ≡ true → is_processing e ≡ false)
        (update_where (λ (e : Event). e.id == id) f es)
written_other i id f [] ends a = tt
written_other i id f (e ∷ es) ends a = elim (Bool-cases (e.id == id)) [
  | inl t ↦ rw t ((λ _. ends e), written_other i id f es ends a.1)
  | inr t ↦ rw t (a.0, written_other i id f es ends a.1)
]

-- A transaction of the loop ends the event's row, and holds no other.
process_event-NotHeld :
    (lower : String → String) (event : Event) (now : Time) (db : Db)
    → NotHeld event.id (process_event lower event now db)
unfolding process_event finish_event
process_event-NotHeld lower event now db =
    written_self event.id
      (λ e. record e { status = (dispatch lower event now db).0; processed_at = some now })
      (dispatch lower event now db).1.events (λ _. (dispatch-Dispatched lower event now db).ends)
      (λ _. refl)

process_event-keeps :
    (lower : String → String) (event : Event) (now : Time) (i : ℕ) (db : Db)
    → NotHeld i db
    → NotHeld i (process_event lower event now db)
unfolding process_event finish_event
process_event-keeps lower event now i db h =
    written_other i event.id
      (λ e. record e { status = (dispatch lower event now db).0; processed_at = some now })
      (dispatch lower event now db).1.events (λ _. (dispatch-Dispatched lower event now db).ends)
      (subst
        (λ (es : List Event). All (λ (e : Event). (e.id == i) ≡ true → is_processing e ≡ false) es)
        (sym (dispatch-Dispatched lower event now db).same) h)

receive_again-NotHeld : (id : ℕ) (db : Db) → NotHeld id (receive_again id db)
unfolding receive_again set_event_status
receive_again-NotHeld id db =
    written_self id (λ e. record e { status = EventStatus.received }) db.events (λ _. refl)
      (λ _. refl)

receive_again-keeps : (id i : ℕ) (db : Db) → NotHeld i db → NotHeld i (receive_again id db)
unfolding receive_again set_event_status
receive_again-keeps id i db h =
    written_other i id (λ e. record e { status = EventStatus.received }) db.events (λ _. refl) h

abbrev pub is_committed : Fate → Bool
is_committed Fate.committed = true
is_committed Fate.put_back = false
is_committed Fate.lost = false

abbrev pub is_lost : Fate → Bool
is_lost Fate.committed = false
is_lost Fate.put_back = false
is_lost Fate.lost = true

-- None of the events is `processing`, and the count is of the committed ones.
pub record LetsGo (fate : Event → Fate) (events : List Event) (x : Option ℕ × Db) : Type 0 where
  pub counted : x.0 ≡ some (count_where (λ e. is_committed (fate e)) events)
  pub freed : All (λ (e : Event). NotHeld e.id x.1) events

Fate-cases : (x : Fate) → (x ≡ Fate.committed) ⊎ (x ≡ Fate.put_back) ⊎ (x ≡ Fate.lost)
Fate-cases Fate.committed = inl refl
Fate-cases Fate.put_back = inr (inl refl)
Fate-cases Fate.lost = inr (inr refl)

module _ (lower : String → String) (fate : Event → Fate) (meanwhile : ℕ → Db → Db)
    (quiet : (x i : ℕ) (db : Db) → NotHeld i db → NotHeld i (meanwhile x db)) where
  all-keeps :
      (now : Time) (events : List Event) (i : ℕ) (db : Db)
      → NotHeld i db
      → NotHeld i (process_all lower fate meanwhile now events db).1
  unfolding process_all
  all-keeps now [] i db h = h
  all-keeps now (event ∷ events) i db h =
      let db' = meanwhile event.id db in
      let h' = quiet event.id i db h in
      elim (Fate-cases (fate event)) [
        | inl e ↦
            rw (e, process_all)
              (all-keeps now events i (process_event lower event now db')
                (process_event-keeps lower event now i db' h'))
        | inr (inl e) ↦
            rw (e, process_all)
              (all-keeps now events i (receive_again event.id db')
                (receive_again-keeps event.id i db' h'))
        | inr (inr e) ↦ rw (e, process_all) h'
      ]

  all-LetsGo :
      (now : Time) (events : List Event) (db : Db)
      → All (λ e. is_lost (fate e) ≡ false) events
      → LetsGo fate events (process_all lower fate meanwhile now events db)
  unfolding process_all
  all-LetsGo now [] db h = record { counted = refl; freed = tt }
  all-LetsGo now (event ∷ events) db h =
      let db' = meanwhile event.id db in
      elim (Fate-cases (fate event)) [
        | inl e ↦
            let p = process_event lower event now db' in
            let rest = all-LetsGo now events p h.1 in
            rw (e, process_all)
              (record {
                counted = rw e (ap one_counted rest.counted ∙ ap some (omega arith));
                freed = (
                  all-keeps now events event.id p (process_event-NotHeld lower event now db'),
                  rest.freed,
                );
              })
        | inr (inl e) ↦
            let p = receive_again event.id db' in
            let rest = all-LetsGo now events p h.1 in
            rw (e, process_all)
              (record {
                counted = rw e (rest.counted ∙ ap some (omega arith));
                freed = (
                  all-keeps now events event.id p (receive_again-NotHeld event.id db'),
                  rest.freed,
                );
              })
        | inr (inr e) ↦ absurd (ground (arith, sym (ap is_lost e) ∙ h.0))
      ]

  -- Suppose that the write that puts an event back raises for no event that the batch claims, and that
  -- what other sessions do between the transactions of a batch makes no event `processing` that was
  -- not. After the batch, no event that it claimed is `processing`, whichever of its events failed, and
  -- the batch returns how many of its events it committed.
  pub process_pending_events-LetsGo :
      (now : Time) (limit : ℕ) (db : Db)
      → All (λ e. is_lost (fate e) ≡ false) (claim_pending_events limit db).0
      → LetsGo fate
          (claim_pending_events limit db).0
          (process_pending_events lower fate meanwhile now limit db)
  unfolding process_pending_events
  process_pending_events-LetsGo now limit db h =
      all-LetsGo now (claim_pending_events limit db).0 (claim_pending_events limit db).1 h
