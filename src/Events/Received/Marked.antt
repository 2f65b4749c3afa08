-- ===== src/Events/Received/Marked.antt =====
-- app/services/events.py, claim_pending_events: comments that a batch has claimed are the comments that
-- they were.
use linkplease_tech_assignme.Base.{◌≡◌, refl, ap, String, List, [], ◌∷◌, arith, map}
use linkplease_tech_assignme.Models.{Rule, Event}
use linkplease_tech_assignme.Events.Processing.Claiming.{mark}
use linkplease_tech_assignme.Events.Processing.OneRule.{AreComments, users_of, users_after, hits_of}

-- The rows as the claim of a batch leaves them.
abbrev pub marked : List (Event × String × String) → List (Event × String × String)
marked [] = []
marked ((e, user, text) ∷ rows) = (mark e, user, text) ∷ marked rows

pub map-marked :
    (rows : List (Event × String × String))
    → map (λ (x : Event × String × String). x.0) (marked rows)
      ≡ map mark (map (λ (x : Event × String × String). x.0) rows)
map-marked [] = refl
map-marked ((e, user, text) ∷ rows) = ap (◌∷◌ (mark e)) (map-marked rows)

module _ (lower : String → String) (r : Rule) (active : r.is_active ≡ 1) where
  pub marked-AreComments :
      (rows : List (Event × String × String))
      → AreComments lower r active rows
      → AreComments lower r active (marked rows)
  marked-AreComments [] a = tt
  marked-AreComments ((e, user, text) ∷ rows) (c, cs) = (
    record {
      kind = c.kind;
      user_is = c.user_is;
      user_given = c.user_given;
      text_is = c.text_is;
      text_given = c.text_given;
    },
    marked-AreComments rows cs,
  )

  pub users_of-marked :
      (rows : List (Event × String × String)) (us : List String)
      → users_of lower r active (marked rows) us ≡ users_of lower r active rows us
  users_of-marked [] us = refl
  users_of-marked ((e, user, text) ∷ rows) us =
      users_of-marked rows (users_after lower r active user text us)

  pub hits_of-marked :
      (rows : List (Event × String × String))
      → hits_of lower r active (marked rows) ≡ hits_of lower r active rows
  hits_of-marked [] = refl
  hits_of-marked ((e, user, text) ∷ rows) = omega (arith, hits_of-marked rows)
