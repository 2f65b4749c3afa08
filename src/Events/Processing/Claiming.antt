-- ===== src/Events/Processing/Claiming.antt =====
-- app/services/events.py, claim_pending_events: a batch that is large enough for all events, where all
-- are `received`, claims each of them, in the order of their keys.
use linkplease_tech_assignme.Base.{
  ℕ, zero, suc, ◌≤◌, ◌<◌, ◌≡◌, refl, sym, ap, Bool, true, false, List, [], ◌∷◌, ◌++◌, arith, All,
  All-append, All-map, map, length, take, select_where, update_where, count_where, order_by,
  insert_by, ◌==◌,
}
use linkplease_tech_assignme.Models.{Db, Event, EventStatus, event_status_eq}
use linkplease_tech_assignme.Events.Processing.{
  id_le, received_with, received_ids, set_event_status, claim_event, claim_events,
  claim_pending_events,
}

-- The keys ascend, and the first is at least `n`.
abbrev pub Ascends : ℕ → List Event → Type 0
Ascends n [] = Unit {0}
Ascends n (e ∷ es) = (n ≤ e.id) × Ascends (suc e.id) es

abbrev pub AllReceived : List Event → Type 0
AllReceived = All (λ (e : Event). event_status_eq e.status EventStatus.received ≡ true)

abbrev pub mark : Event → Event
mark e = record e { status = EventStatus.processing }

Ascends-above : (n : ℕ) (es : List Event) → Ascends n es → All (λ (e : Event). n ≤ e.id) es
Ascends-above n [] a = tt
Ascends-above n (e ∷ es) a =
    (a.0, All-map (λ f h. omega (arith, a.0)) es (Ascends-above (suc e.id) es a.1))

pub append-Ascends :
    (n m : ℕ) (es : List Event) (e : Event)
    → Ascends n es
    → All (λ (f : Event). f.id < m) es
    → n ≤ e.id
    → e.id ≡ m
    → Ascends n (es ++ e ∷ [])
append-Ascends n m [] e a b h k = (h, tt)
append-Ascends n m (f ∷ fs) e a b h k =
    (a.0, append-Ascends (suc f.id) m fs e a.1 b.1 (omega (arith, b.0)) k)

-- The rows that `p` does not fit, and one that it does.
module _ (p : Event → Bool) where
  update_none :
      (f : Event → Event) (es : List Event)
      → All (λ (e : Event). p e ≡ false) es
      → update_where p f es ≡ es
  update_none f [] a = refl
  update_none f (e ∷ es) a = rw (a.0) (ap (◌∷◌ e) (update_none f es a.1))

  select_none : (es : List Event) → All (λ (e : Event). p e ≡ false) es → select_where p es ≡ []
  select_none [] a = refl
  select_none (e ∷ es) a = rw (a.0) (select_none es a.1)

  update_one :
      (f : Event → Event) (xs ys : List Event) (e : Event)
      → All (λ (x : Event). p x ≡ false) xs
      → p e ≡ true
      → All (λ (y : Event). p y ≡ false) ys
      → update_where p f (xs ++ e ∷ ys) ≡ xs ++ f e ∷ ys
  update_one f [] ys e a k b = rw k (ap (◌∷◌ (f e)) (update_none f ys b))
  update_one f (x ∷ xs) ys e a k b = rw (a.0) (ap (◌∷◌ x) (update_one f xs ys e a.1 k b))

  select_one :
      (xs ys : List Event) (e : Event)
      → All (λ (x : Event). p x ≡ false) xs
      → p e ≡ true
      → All (λ (y : Event). p y ≡ false) ys
      → select_where p (xs ++ e ∷ ys) ≡ e ∷ []
  select_one [] ys e a k b = rw k (ap (◌∷◌ e) (select_none ys b))
  select_one (x ∷ xs) ys e a k b = rw (a.0) (select_one xs ys e a.1 k b)

  count_one :
      (xs ys : List Event) (e : Event) → p e ≡ true → (count_where p (xs ++ e ∷ ys) == 0) ≡ false
  count_one [] ys e k = rw k (ground arith)
  count_one (x ∷ xs) ys e k = ground (arith, count_one xs ys e k)

other_id :
    (id : ℕ) (es : List Event)
    → All (λ (e : Event). (e.id == id) ≡ false) es
    → All (λ (e : Event). received_with id e ≡ false) es
other_id id = All-map (λ e h. rw h refl)

claim_one :
    (db : Db) (xs ys : List Event) (e : Event)
    → db.events ≡ xs ++ e ∷ ys
    → All (λ (x : Event). (x.id == e.id) ≡ false) xs
    → All (λ (y : Event). (y.id == e.id) ≡ false) ys
    → event_status_eq e.status EventStatus.received ≡ true
    → claim_event e.id db ≡ (mark e ∷ [], record db { events = xs ++ mark e ∷ ys })
unfolding claim_event set_event_status
claim_one db xs ys e eq a b k =
    let self : (e.id == e.id) ≡ true = ground arith in
    let fits : received_with e.id e ≡ true = rw self k in
    let a' = other_id e.id xs a in
    let b' = other_id e.id ys b in
    rw
      (
        eq,
        count_one (received_with e.id) xs ys e fits,
        update_one (received_with e.id) mark xs ys e a' fits b',
        select_one (λ (x : Event). x.id == e.id) xs ys (mark e) a self b,
      )
      refl

append_one : (xs ys : List Event) (e : Event) → xs ++ e ∷ ys ≡ (xs ++ e ∷ []) ++ ys
append_one [] ys e = refl
append_one (x ∷ xs) ys e = ap (◌∷◌ x) (append_one xs ys e)

claim_rest :
    (n : ℕ) (xs ys : List Event) (db : Db)
    → db.events ≡ xs ++ ys
    → All (λ (x : Event). x.id < n) xs
    → Ascends n ys
    → AllReceived ys
    → claim_events (map (λ (e : Event). e.id) ys) db
      ≡ (map mark ys, record db { events = xs ++ map mark ys })
unfolding claim_events
claim_rest n xs [] db eq below up a = rw (sym eq) refl
claim_rest n xs (y ∷ ys) db eq below up a =
    let db' = record db { events = xs ++ mark y ∷ ys } in
    let one =
      claim_one db xs ys y eq
        (All-map {Q = λ (x : Event). (x.id == y.id) ≡ false} (λ x h. ground (arith, h, up.0)) xs
          below)
        (All-map {Q = λ (x : Event). (x.id == y.id) ≡ false} (λ x h. ground (arith, h)) ys
          (Ascends-above (suc y.id) ys up.1))
        a.0 in
    let later =
      claim_rest (suc y.id) (xs ++ mark y ∷ []) ys db' (append_one xs ys (mark y))
        (All-append (λ (x : Event). x.id < suc y.id) xs (mark y ∷ [])
          (All-map (λ x h. omega (arith, h, up.0)) xs below) (omega arith, tt))
        up.1 a.1 in
    rw (one, later, sym (append_one xs (map mark ys) (mark y))) refl

select_all :
    (es : List Event)
    → AllReceived es
    → select_where (λ (e : Event). event_status_eq e.status EventStatus.received) es ≡ es
select_all [] a = refl
select_all (e ∷ es) a = rw (a.0) (ap (◌∷◌ e) (select_all es a.1))

order_ascending : (n : ℕ) (es : List Event) → Ascends n es → order_by id_le es ≡ es
order_ascending n [] a = refl
order_ascending n (e ∷ es) a =
    rw (order_ascending (suc e.id) es a.1) (first e es (Ascends-above (suc e.id) es a.1))
  where
    first :
        (e : Event) (es : List Event)
        → All (λ (f : Event). suc e.id ≤ f.id) es
        → insert_by id_le e es ≡ e ∷ es
    first e [] a = refl
    first e (f ∷ fs) a = ground (arith, a.0)

take_all : (n : ℕ) (es : List Event) → length es ≤ n → take n es ≡ es
take_all zero [] h = refl
take_all (suc n) [] h = refl
take_all zero (e ∷ es) h = absurd (omega arith)
take_all (suc n) (e ∷ es) h = ap (◌∷◌ e) (take_all n es (omega arith))

pub claim_all :
    (limit : ℕ) (db : Db)
    → Ascends 0 db.events
    → AllReceived db.events
    → length db.events ≤ limit
    → claim_pending_events limit db
      ≡ (map mark db.events, record db { events = map mark db.events })
unfolding claim_pending_events received_ids
claim_all limit db up a fits =
    rw (select_all db.events a, order_ascending 0 db.events up, take_all limit db.events fits)
      (claim_rest 0 [] db.events db refl tt up a)
