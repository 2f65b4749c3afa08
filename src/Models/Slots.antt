-- ===== src/Models/Slots.antt =====
-- The partial unique index on `dm_jobs (rule_id, user_id)` as an invariant of the table, with the
-- order of the primary keys.
use linkplease_tech_assignme.Base.{
  text_tests, ℕ, suc, ◌≤◌, ◌<◌, ◌≡◌, refl, Bool, true, false, not, ◌&&◌, List, [], ◌∷◌, ◌++◌, arith,
  any_where, All, update_where, ◌==◌, Bool-cases, inl, inr, any_where-append, str_eq_iff,
}
use linkplease_tech_assignme.Models.{DmJob, holds_slot, conflicts}

pub conflicts_comm : (j k : DmJob) → conflicts j k ≡ conflicts k j
unfolding conflicts
conflicts_comm j k = grind text_tests

-- Two rows of one rule and user, neither cancelled, conflict.
pub same_slot-conflicts :
    (j k : DmJob)
    → holds_slot j ≡ true
    → holds_slot k ≡ true
    → j.rule_id ≡ k.rule_id
    → j.user_id ≡ k.user_id
    → conflicts j k ≡ true
unfolding conflicts
same_slot-conflicts j k a b r u =
    ground (arith, str_eq_iff j.rule_id k.rule_id, str_eq_iff j.user_id k.user_id)

-- `j'` is `j` after an update that takes no slot which `j` did not hold.
pub record Narrows (j j' : DmJob) : Type 0 where
  pub same_id : j'.id ≡ j.id
  pub same_rule : j'.rule_id ≡ j.rule_id
  pub same_user : j'.user_id ≡ j.user_id
  pub no_new_slot : holds_slot j' ≡ true → holds_slot j ≡ true

Narrows-refl : (j : DmJob) → Narrows j j
Narrows-refl j = record { same_id = refl; same_rule = refl; same_user = refl; no_new_slot = λ h. h }

-- A conjunction with fewer truths in front stays false.
and_mono :
    (a a' b b' c d : Bool)
    → (a' ≡ true → a ≡ true)
    → (b' ≡ true → b ≡ true)
    → (a && b && c && d) ≡ false
    → (a' && b' && c && d) ≡ false
and_mono a true b true c d f g h = rw (f refl, g refl) at h
and_mono a true b false c d f g h = refl
and_mono a false b b' c d f g h = refl

conflicts-Narrows :
    (j j' k k' : DmJob)
    → Narrows j j'
    → Narrows k k'
    → conflicts j k ≡ false
    → conflicts j' k' ≡ false
unfolding conflicts
conflicts-Narrows j j' k k' a b h =
    rw (a.same_rule, a.same_user, b.same_rule, b.same_user)
      (and_mono (holds_slot j) (holds_slot j') (holds_slot k) (holds_slot k') _ _ a.no_new_slot
        b.no_new_slot h)

-- No row conflicts with a later one.
abbrev pub SlotsUnique : List DmJob → Type 0
SlotsUnique [] = Unit {0}
SlotsUnique (j ∷ js) = (any_where (conflicts j) js ≡ false) × SlotsUnique js

-- The keys rise along the table, from `lo` on.
abbrev pub Ascending : ℕ → List DmJob → Type 0
Ascending lo [] = Unit {0}
Ascending lo (j ∷ js) = (lo ≤ j.id) × Ascending (suc j.id) js

abbrev pub replace : DmJob → List DmJob → List DmJob
replace k = update_where (λ j. j.id == k.id) (λ _. k)

-- Some other row of the table holds the slot that `k` wants.
abbrev pub other_conflicts : DmJob → List DmJob → Bool
other_conflicts k = any_where (λ j. not (j.id == k.id) && conflicts j k)

replace_above :
    (k : DmJob) (lo : ℕ) (js : List DmJob) → Ascending lo js → k.id < lo → replace k js ≡ js
replace_above k lo [] a h = refl
replace_above k lo (j ∷ js) a h = ground (arith, replace_above k (suc j.id) js a.1)

others_above :
    (k : DmJob) (lo : ℕ) (js : List DmJob)
    → Ascending lo js
    → k.id < lo
    → other_conflicts k js ≡ false
    → any_where (conflicts k) js ≡ false
others_above k lo [] a h n = refl
others_above k lo (j ∷ js) a h n =
    ground (arith, conflicts_comm k j, others_above k (suc j.id) js a.1)

others_replace :
    (j k : DmJob) (js : List DmJob)
    → conflicts j k ≡ false
    → any_where (conflicts j) js ≡ false
    → any_where (conflicts j) (replace k js) ≡ false
others_replace j k [] h n = refl
others_replace j k (i ∷ js) h n = ground (arith, others_replace j k js h)

pub replace-SlotsUnique :
    (k : DmJob) (lo : ℕ) (js : List DmJob)
    → Ascending lo js
    → SlotsUnique js
    → other_conflicts k js ≡ false
    → SlotsUnique (replace k js)
replace-SlotsUnique k lo [] a u n = tt
replace-SlotsUnique k lo (j ∷ js) a u n = ground (
  arith,
  replace-SlotsUnique k (suc j.id) js a.1 u.1,
  replace_above k (suc j.id) js a.1,
  others_above k (suc j.id) js a.1,
  others_replace j k js,
)

pub replace-Ascending :
    (k : DmJob) (lo : ℕ) (js : List DmJob) → Ascending lo js → Ascending lo (replace k js)
replace-Ascending k lo [] a = tt
replace-Ascending k lo (j ∷ js) a = ground (arith, replace-Ascending k (suc j.id) js a.1)

pub append-SlotsUnique :
    (k : DmJob) (js : List DmJob)
    → SlotsUnique js
    → any_where (λ j. conflicts j k) js ≡ false
    → SlotsUnique (js ++ k ∷ [])
append-SlotsUnique k [] u n = (refl, tt)
append-SlotsUnique k (j ∷ js) u n =
    ground (arith, append-SlotsUnique k js u.1, any_where-append (conflicts j) js (k ∷ []))

any_where-narrowed :
    (p : DmJob → Bool) (f : DmJob → DmJob) (j j' : DmJob) (js : List DmJob)
    → ((k : DmJob) → p k ≡ true → Narrows k (f k))
    → Narrows j j'
    → any_where (conflicts j) js ≡ false
    → any_where (conflicts j') (update_where p f js) ≡ false
any_where-narrowed p f j j' [] keep a n = refl
any_where-narrowed p f j j' (k ∷ js) keep a n = elim (Bool-cases (p k)) [
  | inl e ↦ rw e (
      ground
        (arith, conflicts-Narrows j j' k (f k) a (keep k e), any_where-narrowed p f j j' js keep a))
  | inr e ↦ rw e (
      ground (
        arith,
        conflicts-Narrows j j' k k a (Narrows-refl k),
        any_where-narrowed p f j j' js keep a,
      ))
]

-- A bulk update that takes no slot keeps the index.
pub update_where-SlotsUnique :
    (p : DmJob → Bool) (f : DmJob → DmJob) (js : List DmJob)
    → ((k : DmJob) → p k ≡ true → Narrows k (f k))
    → SlotsUnique js
    → SlotsUnique (update_where p f js)
update_where-SlotsUnique p f [] keep u = tt
update_where-SlotsUnique p f (j ∷ js) keep u = elim (Bool-cases (p j)) [
  | inl e ↦ rw e (
    any_where-narrowed p f j (f j) js keep (keep j e) u.0,
    update_where-SlotsUnique p f js keep u.1,
  )
  | inr e ↦ rw e (
    any_where-narrowed p f j j js keep (Narrows-refl j) u.0,
    update_where-SlotsUnique p f js keep u.1,
  )
]

pub update_where-Ascending :
    (p : DmJob → Bool) (f : DmJob → DmJob) (lo : ℕ) (js : List DmJob)
    → ((k : DmJob) → (f k).id ≡ k.id)
    → Ascending lo js
    → Ascending lo (update_where p f js)
update_where-Ascending p f lo [] keep a = tt
update_where-Ascending p f lo (j ∷ js) keep a =
    ground (arith, keep j, update_where-Ascending p f (suc j.id) js keep a.1)

pub append-Ascending :
    (k : DmJob) (lo : ℕ) (js : List DmJob)
    → Ascending lo js
    → All (λ j. j.id < k.id) js
    → lo ≤ k.id
    → Ascending lo (js ++ k ∷ [])
append-Ascending k lo [] a b h = (h, tt)
append-Ascending k lo (j ∷ js) a b h = (a.0, append-Ascending k (suc j.id) js a.1 b.1 b.0)
