-- ===== src/Counters/Laws.antt =====
-- app/services/counters.py: what `get` reads after the other operations.
use linkplease_tech_assignme.Base.{
  ℕ, ◌+◌, ◌≡◌, refl, Bool, true, false, String, List, [], ◌∷◌, ◌++◌, arith, str_eq, str_eq_iff,
  str_eq_refl, if◌then◌else◌, update_where, count_where, any_where, first_where, count_where-zero,
  ℕ_discrete, ◌≢◌, Bool-cases, inl, inr,
}
use linkplease_tech_assignme.Models.{Db, Counter, CounterKey, counter_key_str}
use linkplease_tech_assignme.Counters.{
  has_key, add_to, insert_counter, update_counter, seed_key, seed_counters, insert_or_update,
  increment, value_of, get,
}

abbrev key_eq : CounterKey → CounterKey → Bool
key_eq j k = str_eq (counter_key_str j) (counter_key_str k)

keys_ne : (j k : CounterKey) → j ≢ k → key_eq j k ≡ false
unfolding str_eq
keys_ne CounterKey.duplicates_blocked CounterKey.duplicates_blocked h = absurd (h refl)
keys_ne CounterKey.duplicates_blocked CounterKey.duplicate_events h = refl
keys_ne CounterKey.duplicates_blocked CounterKey.events_received h = refl
keys_ne CounterKey.duplicate_events CounterKey.duplicates_blocked h = refl
keys_ne CounterKey.duplicate_events CounterKey.duplicate_events h = absurd (h refl)
keys_ne CounterKey.duplicate_events CounterKey.events_received h = refl
keys_ne CounterKey.events_received CounterKey.duplicates_blocked h = refl
keys_ne CounterKey.events_received CounterKey.duplicate_events h = refl
keys_ne CounterKey.events_received CounterKey.events_received h = absurd (h refl)

value_of-append :
    (k : String) (c : Counter) (cs : List Counter)
    → value_of (first_where (has_key k) (cs ++ c ∷ [])) ≡ (
        if any_where (has_key k) cs
        then value_of (first_where (has_key k) cs)
        else if has_key k c
        then c.value
        else 0)
unfolding value_of
value_of-append k c [] = ground arith
value_of-append k c (x ∷ xs) = ground (arith, value_of-append k c xs)

value_of-absent :
    (k : String) (cs : List Counter)
    → any_where (has_key k) cs ≡ false
    → value_of (first_where (has_key k) cs) ≡ 0
unfolding value_of
value_of-absent k [] h = refl
value_of-absent k (x ∷ xs) h = ground (arith, value_of-absent k xs)

value_of-update_self :
    (k : String) (a : ℕ) (cs : List Counter)
    → any_where (has_key k) cs ≡ true
    → value_of (first_where (has_key k) (update_where (has_key k) (add_to a) cs))
      ≡ value_of (first_where (has_key k) cs) + a
unfolding value_of
value_of-update_self k a [] h = cc
value_of-update_self k a (x ∷ xs) h = ground (arith, value_of-update_self k a xs)

value_of-update_ne :
    (j k : String) (a : ℕ) (cs : List Counter)
    → str_eq j k ≡ false
    → value_of (first_where (has_key k) (update_where (has_key j) (add_to a) cs))
      ≡ value_of (first_where (has_key k) cs)
unfolding value_of
value_of-update_ne j k a [] h = refl
value_of-update_ne j k a (x ∷ xs) h =
    ground
      (arith, str_eq_iff x.key j, str_eq_iff x.key k, str_eq_iff j k, value_of-update_ne j k a xs h)

update_absent :
    (k : String) (a : ℕ) (cs : List Counter)
    → any_where (has_key k) cs ≡ false
    → update_where (has_key k) (add_to a) cs ≡ cs
update_absent k a [] h = refl
update_absent k a (x ∷ xs) h = ground (arith, update_absent k a xs)

count_of_absent :
    (k : String) (cs : List Counter)
    → any_where (has_key k) cs ≡ false
    → count_where (has_key k) cs ≡ 0
count_of_absent k [] h = refl
count_of_absent k (x ∷ xs) h = ground (arith, count_of_absent k xs)

increment_present :
    (k : CounterKey) (a : ℕ) (db : Db)
    → a ≢ 0
    → any_where (has_key (counter_key_str k)) db.counters ≡ true
    → (increment k a db).counters
      ≡ update_where (has_key (counter_key_str k)) (add_to a) db.counters
unfolding increment
increment_present k a db z h =
    ground (arith, count_where-zero (has_key (counter_key_str k)) db.counters)

increment_absent :
    (k : CounterKey) (a : ℕ) (db : Db)
    → a ≢ 0
    → any_where (has_key (counter_key_str k)) db.counters ≡ false
    → (increment k a db).counters
      ≡ db.counters ++ record { key = counter_key_str k; value = a } ∷ []
unfolding increment insert_or_update insert_counter update_counter
increment_absent k a db z h = ground (
  arith,
  count_of_absent (counter_key_str k) db.counters h,
  update_absent (counter_key_str k) a db.counters h,
)

-- An increment writes the counters table and nothing else.
pub increment_frame :
    (k : CounterKey) (a : ℕ) (db : Db)
    → increment k a db ≡ record db { counters = (increment k a db).counters }
unfolding increment insert_counter
increment_frame k a db = ground arith

pub increment_zero : (k : CounterKey) (db : Db) → increment k 0 db ≡ db
unfolding increment
increment_zero k db = refl

-- After an increment a counter reads its old value plus the amount.
pub get-increment_self :
    (k : CounterKey) (a : ℕ) (db : Db) → get k (increment k a db) ≡ get k db + a
unfolding get
get-increment_self k a db = elim (ℕ_discrete a 0) [
  | yes z ↦ rw (z, increment_zero k db) (omega arith)
  | no z ↦ elim (Bool-cases (any_where (has_key (counter_key_str k)) db.counters)) [
    | inl e ↦
        rw (increment_present k a db z e) (value_of-update_self (counter_key_str k) a db.counters e)
    | inr e ↦
        rw (increment_absent k a db z e, value_of-append (counter_key_str k), e)
          (ground (
            arith,
            str_eq_refl (counter_key_str k),
            value_of-absent (counter_key_str k) db.counters e,
          ))
  ]
]

-- Another counter reads what it read before.
pub get-increment_ne :
    (j k : CounterKey) (a : ℕ) (db : Db) → j ≢ k → get k (increment j a db) ≡ get k db
unfolding get
get-increment_ne j k a db ne = elim (ℕ_discrete a 0) [
  | yes z ↦ rw (z, increment_zero j db)
  | no z ↦ elim (Bool-cases (any_where (has_key (counter_key_str j)) db.counters)) [
    | inl e ↦
        rw (increment_present j a db z e) (
          value_of-update_ne (counter_key_str j) (counter_key_str k) a db.counters (keys_ne j k ne))
    | inr e ↦
        rw (increment_absent j a db z e, value_of-append (counter_key_str k))
          (ground (arith, keys_ne j k ne, value_of-absent (counter_key_str k) db.counters))
  ]
]

get-seed_key : (j k : CounterKey) (db : Db) → get k (seed_key j db) ≡ get k db
unfolding get seed_key
get-seed_key j k db = elim (Bool-cases (any_where (has_key (counter_key_str j)) db.counters)) [
  | inl e ↦ rw e
  | inr e ↦
      rw (e, value_of-append (counter_key_str k))
        (ground (arith, value_of-absent (counter_key_str k) db.counters))
]

-- Seeding at startup resets no counter.
pub get-seed_counters : (k : CounterKey) (db : Db) → get k (seed_counters db) ≡ get k db
unfolding seed_counters
get-seed_counters k db = simp get-seed_key

-- Seeding writes the counters table and nothing else.
pub seed_counters_frame :
    (db : Db) → seed_counters db ≡ record db { counters = (seed_counters db).counters }
unfolding seed_counters
seed_counters_frame db = ground arith

-- The value of a counter is read from the counters table alone.
pub get_frame : (k : CounterKey) (db db' : Db) → db'.counters ≡ db.counters → get k db' ≡ get k db
unfolding get
get_frame k db db' e = rw e
