-- ===== src/RateLimiter/Window.antt =====
-- app/services/rate_limiter.py: the grants in a window, and what the limiter remembers of them.
use linkplease_tech_assignme.Base.{
  ℕ, ◌+◌, ◌≤◌, ◌<◌, ◌≡◌, refl, Bool, ◌&&◌, List, [], ◌∷◌, ◌++◌, arith, leb, ltb, length,
  count_where, count_where-append, count_where-le, Bool-cases, inl, inr, zero, suc, sym, ◌∙◌,
  dec_lt, length-append,
}
use linkplease_tech_assignme.Models.{Time}
use linkplease_tech_assignme.RateLimiter.{
  Limiter, Round, granted, wait, index_error, Acquired, got, raised, acquire, trim_list, trim,
  round_from, acquire_round, wait_round,
}

-- `t` lies in the window of length `window` that ends at `x`, its start excluded.
abbrev pub in_window : ℕ → Time → Time → Bool
in_window window x t = leb t x && ltb x (t + window)

-- The grants in the window that ends at `x`.
abbrev pub sends : ℕ → Time → List Time → ℕ
sends window x = count_where (in_window window x)

sends-trim :
    (now x : Time) (window : ℕ) (ts : List Time)
    → now ≤ x
    → sends window x (trim_list now window ts) ≡ sends window x ts
unfolding trim_list
sends-trim now x window [] h = refl
sends-trim now x window (t ∷ ts) h = ground (arith, sends-trim now x window ts h)

sends-future :
    (now x : Time) (window : ℕ) (h : List Time)
    → x < now
    → sends window x (h ++ now ∷ []) ≡ sends window x h
sends-future now x window h lt =
    ground (arith, count_where-append (in_window window x) h (now ∷ []))

-- The limiter knows what it needs of the history `h` of grants, as of the time `now`: each window
-- that ends later holds as many grants of the history as the limiter remembers, and no window is
-- over the limit.
pub record Remembers (now : Time) (h : List Time) (l : Limiter) : Type 0 where
  pub same :
      (x : Time) → now ≤ x → sends l.window_seconds x h ≡ sends l.window_seconds x l.timestamps
  pub limited : (x : Time) → sends l.window_seconds x h ≤ l.max_calls

wait_not_granted :
    (now : Time) (l : Limiter) (ts : List Time) (l' : Limiter)
    → ¬ (wait_round now l ts ≡ granted l')
unfolding wait_round
wait_not_granted now l [] l' e = cc
wait_not_granted now l (t ∷ ts) l' e = cc

wait_same :
    (now : Time) (l : Limiter) (ts : List Time) (l' : Limiter) (d : ℕ)
    → wait_round now l ts ≡ wait d l'
    → l' ≡ l
unfolding wait_round
wait_same now l [] l' d e = cc
wait_same now l (t ∷ ts) l' d e = cc

waits_same : (now : Time) (l l' : Limiter) (d : ℕ) → round_from now l ≡ wait d l' → l' ≡ l
unfolding round_from
waits_same now l l' d e = elim (Bool-cases (ltb (length l.timestamps) l.max_calls)) [
  | inl f ↦ let e' = rw f at e in cc
  | inr f ↦ wait_same now l l.timestamps l' d (rw f at e)
]

round_inv :
    (now : Time) (l l' : Limiter)
    → round_from now l ≡ granted l'
    → (length l.timestamps < l.max_calls)
      × (l' ≡ record l { timestamps = l.timestamps ++ now ∷ [] })
unfolding round_from
round_inv now l l' e = ground (arith, wait_not_granted now l l.timestamps l')

wait_inv : (now : Time) (l l' : Limiter) (d : ℕ) → acquire_round now l ≡ wait d l' → l' ≡ trim now l
unfolding acquire_round
wait_inv now l l' d e = waits_same now (trim now l) l' d e

granted_inv :
    (now : Time) (l l' : Limiter)
    → acquire_round now l ≡ granted l'
    → (length (trim_list now l.window_seconds l.timestamps) < l.max_calls)
      × (l' ≡ record l { timestamps = trim_list now l.window_seconds l.timestamps ++ now ∷ [] })
unfolding acquire_round
granted_inv now l l' e = round_inv now (trim now l) l' e

pub trim-Remembers :
    (last now : Time) (h : List Time) (l : Limiter)
    → last ≤ now
    → Remembers last h l
    → Remembers now h (trim now l)
unfolding trim
trim-Remembers last now h l le r = record {
  same = λ x lx. r.same x (omega arith) ∙ sym (sends-trim now x l.window_seconds l.timestamps lx);
  limited = r.limited;
}

grown_same :
    (last now : Time) (h : List Time) (l : Limiter)
    → last ≤ now
    → Remembers last h l
    → (x : Time) → now ≤ x
    → sends l.window_seconds x (h ++ now ∷ [])
      ≡ sends l.window_seconds x (trim_list now l.window_seconds l.timestamps ++ now ∷ [])
grown_same last now h l le r x lx = omega (
  arith,
  count_where-append (in_window l.window_seconds x) h (now ∷ []),
  count_where-append (in_window l.window_seconds x) (trim_list now l.window_seconds l.timestamps)
      (now ∷ []),
  r.same x (omega arith),
  sends-trim now x l.window_seconds l.timestamps lx,
)

grown_limited :
    (last now : Time) (h : List Time) (l : Limiter)
    → last ≤ now
    → Remembers last h l
    → length (trim_list now l.window_seconds l.timestamps) < l.max_calls
    → (x : Time) → sends l.window_seconds x (h ++ now ∷ []) ≤ l.max_calls
grown_limited last now h l le r room x = elim (dec_lt x now) [
  | yes past ↦ omega (arith, r.limited x, sends-future now x l.window_seconds h past)
  | no later ↦
      let kept = trim_list now l.window_seconds l.timestamps ++ now ∷ [] in
      omega (
        arith,
        grown_same last now h l le r x (omega arith),
        count_where-le (in_window l.window_seconds x) kept,
        length-append (trim_list now l.window_seconds l.timestamps) (now ∷ []),
      )
]

-- A grant, at any later time, keeps every window within the limit.
pub granted-Remembers :
    (last now : Time) (h : List Time) (l l' : Limiter)
    → last ≤ now
    → Remembers last h l
    → acquire_round now l ≡ granted l'
    → Remembers now (h ++ now ∷ []) l'
unfolding acquire_round
granted-Remembers last now h l l' le r e =
    let (room, same_l) = granted_inv now l l' e in
    rw same_l (record {
      same = grown_same last now h l le r;
      limited = grown_limited last now h l le r room;
    })

-- So does a round that has to wait.
wait-Remembers :
    (last now : Time) (h : List Time) (l l' : Limiter) (d : ℕ)
    → last ≤ now
    → Remembers last h l
    → acquire_round now l ≡ wait d l'
    → Remembers now h l'
unfolding acquire_round
wait-Remembers last now h l l' d le r e =
    rw (wait_inv now l l' d e) (trim-Remembers last now h l le r)

-- How a call of `acquire` with fuel left has ended in a grant.
abbrev EndsBy : ℕ → (ℕ → ℕ) → Time → Time → Limiter → Round → Type 0
EndsBy fuel late now t l' (granted m) = (m ≡ l') × (t ≡ now)
EndsBy fuel late now t l' (wait d m) = acquire fuel late (now + d + late fuel) m ≡ got t l'
EndsBy fuel late now t l' index_error = ⊥

acquire_ends :
    (fuel : ℕ) (late : ℕ → ℕ) (now t : Time) (l l' : Limiter)
    → acquire (suc fuel) late now l ≡ got t l'
    → (q : Round) × (acquire_round now l ≡ q) × EndsBy fuel late now t l' q
unfolding acquire
acquire_ends fuel late now t l l' e = (acquire_round now l, refl, ends (acquire_round now l) e)
  where
    ends :
        (q : Round)
        → elim q as (λ _. Acquired) [
          | granted m ↦ got now m
          | wait d m ↦ acquire fuel late (now + d + late fuel) m
          | index_error ↦ raised
        ]
          ≡ got t l'
        → EndsBy fuel late now t l' q
    ends (granted m) e = (cc, cc)
    ends (wait d m) e = e
    ends index_error e = cc

no_fuel : (late : ℕ → ℕ) (now t : Time) (l l' : Limiter) → ¬ (acquire zero late now l ≡ got t l')
unfolding acquire
no_fuel late now t l l' e = cc

after_round :
    (fuel : ℕ) (late : ℕ → ℕ) (last now t : Time) (h : List Time) (l l' : Limiter)
    → last ≤ now
    → Remembers last h l
    → ((now' : Time) (m : Limiter)
        → now ≤ now'
        → Remembers now h m
        → acquire fuel late now' m ≡ got t l'
        → (now' ≤ t) × Remembers t (h ++ t ∷ []) l')
    → (q : Round) → acquire_round now l ≡ q
    → EndsBy fuel late now t l' q
    → (now ≤ t) × Remembers t (h ++ t ∷ []) l'
after_round fuel late last now t h l l' le r again (granted m) eq (same, here) =
    rw (here, ← same) (omega arith, granted-Remembers last now h l m le r eq)
after_round fuel late last now t h l l' le r again (wait d m) eq ends =
    let (later, kept) =
      again (now + d + late fuel) m (omega arith) (wait-Remembers last now h l m d le r eq) ends in
    (omega arith, kept)
after_round fuel late last now t h l l' le r again index_error eq ends = absurd ends

-- `acquire` grants at a time that keeps every window within the limit.
pub acquire-Remembers :
    (fuel : ℕ) (late : ℕ → ℕ) (last now t : Time) (h : List Time) (l l' : Limiter)
    → last ≤ now
    → Remembers last h l
    → acquire fuel late now l ≡ got t l'
    → (now ≤ t) × Remembers t (h ++ t ∷ []) l'
acquire-Remembers zero late last now t h l l' le r e = absurd (no_fuel late now t l l' e)
acquire-Remembers (suc fuel) late last now t h l l' le r e =
    let (q, eq, ends) = acquire_ends fuel late now t l l' e in
    after_round fuel late last now t h l l' le r
      (λ now' m le' r'. acquire-Remembers fuel late now now' t h m l' le' r') q eq ends
