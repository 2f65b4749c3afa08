-- ===== src/Counters.antt =====
-- app/services/counters.py: persistent counters. `increment` is one UPDATE, and an INSERT where that
-- finds no row.
pub mod Laws
use linkplease_tech_assignme.Base.{
  ℕ, ◌+◌, Bool, true, false, String, Option, none, some, List, [], ◌∷◌, ◌++◌, ◌==◌, str_eq,
  if◌then◌else◌, update_where, count_where, any_where, first_where,
}
use linkplease_tech_assignme.Models.{Db, Counter, CounterKey, counter_key_str}

abbrev has_key : String → Counter → Bool
has_key key c = str_eq c.key key

-- `Counter(key=key, value=amount)`, which the primary key refuses where the key is taken.
insert_counter : String → ℕ → Db → Option Db
insert_counter key amount db =
    if any_where (has_key key) db.counters
    then none
    else some (record db { counters = db.counters ++ record { key = key; value = amount } ∷ [] })

abbrev add_to : ℕ → Counter → Counter
add_to amount c = record c { value = c.value + amount }

update_counter : String → ℕ → Db → Db
update_counter key amount db = record db {
  counters = update_where (has_key key) (add_to amount) db.counters;
}

seed_key : CounterKey → Db → Db
seed_key key db = if any_where (has_key (counter_key_str key)) db.counters then db else record db {
  counters = db.counters ++ record { key = counter_key_str key; value = 0 } ∷ [];
}

-- The loop over `CounterKey`: its members are three, with three texts.
pub seed_counters : Db → Db
unfolding seed_key
seed_counters db =
    seed_key CounterKey.events_received
      (seed_key CounterKey.duplicate_events (seed_key CounterKey.duplicates_blocked db))

-- The handler of the INSERT, which another session may have made first.
insert_or_update : String → ℕ → Db → Db
unfolding insert_counter update_counter
insert_or_update key amount db = elim (insert_counter key amount db) [
  | some db' ↦ db'
  | none ↦ update_counter key amount db
]

unfoldable pub increment : CounterKey → ℕ → Db → Db
unfolding insert_or_update update_counter
increment key amount db =
    if amount == 0
    then db
    else if count_where (has_key (counter_key_str key)) db.counters == 0
    then insert_or_update (counter_key_str key) amount
        (update_counter (counter_key_str key) amount db)
    else update_counter (counter_key_str key) amount db

value_of : Option Counter → ℕ
value_of none = 0
value_of (some c) = c.value

unfoldable pub get : CounterKey → Db → ℕ
unfolding value_of
get key db = value_of (first_where (has_key (counter_key_str key)) db.counters)
