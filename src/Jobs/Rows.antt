-- ===== src/Jobs/Rows.antt =====
-- Rows found by their key.
use linkplease_tech_assignme.Base.{
  ℕ, suc, ◌≤◌, ◌≡◌, ◌≢◌, Bool, true, some, List, [], ◌∷◌, arith, All, All-map, All-both,
  update_where, count_where, first_where, ◌==◌,
}
use linkplease_tech_assignme.Models.{DmJob}
use linkplease_tech_assignme.Models.Slots.{Ascending}

pub above-All : (lo : ℕ) (js : List DmJob) → Ascending lo js → All (λ x. lo ≤ x.id) js
above-All lo [] a = tt
above-All lo (j ∷ js) a =
    (a.0, All-map (λ x (h : suc j.id ≤ x.id). omega (arith, a.0)) js (above-All (suc j.id) js a.1))

abbrev pub FoundIn : List DmJob → DmJob → Type 0
FoundIn js x = first_where (λ j. j.id == x.id) js ≡ some x

-- With rising keys a row is found by its key.
pub found_self : (lo : ℕ) (js : List DmJob) → Ascending lo js → All (FoundIn js) js
found_self lo [] a = tt
found_self lo (j ∷ js) a = (
  ground arith,
  All-map (λ x (h : (suc j.id ≤ x.id) × FoundIn js x). ground arith) js
      (All-both (λ x. suc j.id ≤ x.id) (FoundIn js) js (above-All (suc j.id) js a.1)
        (found_self (suc j.id) js a.1)),
)

pub found_updated :
    (p q : DmJob → Bool) (f : DmJob → DmJob) (js : List DmJob) (c : DmJob)
    → ((x : DmJob) → q (f x) ≡ q x)
    → first_where q js ≡ some c
    → p c ≡ true
    → first_where q (update_where p f js) ≡ some (f c)
found_updated p q f [] c same h e = absurd (cc)
found_updated p q f (j ∷ js) c same h e = ground (arith, same j, found_updated p q f js c same)

pub found_counted :
    (p q : DmJob → Bool) (js : List DmJob) (c : DmJob)
    → first_where q js ≡ some c
    → p c ≡ true
    → count_where p js ≢ 0
found_counted p q [] c h e = λ _. cc
found_counted p q (j ∷ js) c h e = ground (arith, found_counted p q js c)
