-- ===== src/Matching/Laws.antt =====
-- app/services/matching.py: what a match is, by its two tests.
use linkplease_tech_assignme.Base.{
  ◌≡◌, refl, sym, ◌++◌, if◌then◌else◌, ◌↔◌, Bool, true, false, String, Option, none, some, List, [],
  ◌∷◌, arith, truthy, codes, contains, Occurs, contains_sound, contains_complete, select_where, All,
  ◌==◌, Bool-cases, inl, inr,
}
use linkplease_tech_assignme.Models.{Db, Rule}
use linkplease_tech_assignme.Matching.{in_text, active_rules, text_matches, find_matching_rules}

-- Every rule of the table has a keyword.
abbrev pub HasKeywords : Db → Type 0
HasKeywords db = All (λ r. truthy (some r.keyword_normalized) ≡ true) db.rules

module _ (lower : String → String) where
  -- A text matches exactly when it is not empty, nor is the keyword, and its lower-cased form holds
  -- the keyword as a stretch of consecutive characters.
  pub text_matches_iff :
      (keyword text : String)
      → (text_matches lower keyword (some text) ≡ true) ↔ (
          (truthy (some keyword) ≡ true)
          × (truthy (some text) ≡ true)
          × Occurs (codes keyword) (codes (lower text)))
  unfolding text_matches
  text_matches_iff keyword text = (to, back)
    where
      to :
          text_matches lower keyword (some text) ≡ true
          → (truthy (some keyword) ≡ true)
            × (truthy (some text) ≡ true)
            × Occurs (codes keyword) (codes (lower text))
      to h = (ground arith, ground arith, contains_sound _ _ (ground arith))

      back :
          (truthy (some keyword) ≡ true)
            × (truthy (some text) ≡ true)
            × Occurs (codes keyword) (codes (lower text))
          → text_matches lower keyword (some text) ≡ true
      back h = rw (h.0, h.1) (contains_complete _ _ h.2)

  select_matching :
      (text : String) (rules : List Rule)
      → truthy (some text) ≡ true
      → All (λ r. truthy (some r.keyword_normalized) ≡ true) rules
      → select_where
          (λ r. contains (codes r.keyword_normalized) (codes (lower text)))
          (select_where (λ r. r.is_active == 1) rules)
        ≡ select_where
            (λ r. text_matches lower r.keyword_normalized (some text))
            (select_where (λ r. r.is_active == 1) rules)
  unfolding text_matches
  select_matching text [] t a = refl
  select_matching text (r ∷ rs) t a = ground (arith, select_matching text rs t a.1)

  select_none :
      (p : Rule → Bool) (rules : List Rule) → ((r : Rule) → p r ≡ false) → select_where p rules ≡ []
  select_none p [] h = refl
  select_none p (r ∷ rs) h = ground (arith, h r, select_none p rs h)

  none_not_matched : (r : Rule) → text_matches lower r.keyword_normalized none ≡ false
  unfolding text_matches
  none_not_matched r = refl

  not_matched :
      (text : String)
      → truthy (some text) ≡ false
      → (r : Rule) → text_matches lower r.keyword_normalized (some text) ≡ false
  unfolding text_matches
  not_matched text e r = ground arith

  -- Where every rule has a keyword, the rules found for a text are the active rules that
  -- `text_matches` accepts, in the order of the table, whatever the text is, `None` and "" included.
  pub find_matching_rules-eq-select :
      (text : Option String) (db : Db)
      → HasKeywords db
      → find_matching_rules lower text db
        ≡ select_where (λ r. text_matches lower r.keyword_normalized text) (active_rules db)
  unfolding find_matching_rules active_rules
  find_matching_rules-eq-select none db k = sym (select_none _ (active_rules db) none_not_matched)
  find_matching_rules-eq-select (some text) db k = elim (Bool-cases (truthy (some text))) [
    | inl e ↦ rw e (select_matching text db.rules e k)
    | inr e ↦ rw e (sym (select_none _ (active_rules db) (not_matched text e)))
  ]

  found_append :
      (rule : Rule) (text : String) (rules : List Rule)
      → rule.is_active ≡ 1
      → select_where
          (λ r. in_text r.keyword_normalized (lower text))
          (select_where (λ r. r.is_active == 1) (rules ++ rule ∷ []))
        ≡ select_where
            (λ r. in_text r.keyword_normalized (lower text))
            (select_where (λ r. r.is_active == 1) rules)
          ++ (if in_text rule.keyword_normalized (lower text) then rule ∷ [] else [])
  found_append rule text [] active = ground arith
  found_append rule text (r ∷ rs) active = ground (arith, found_append rule text rs active)

  -- An active rule that is appended to the table is found behind the others, where its keyword is in
  -- the text.
  pub find_matching_rules-append :
      (rule : Rule) (db : Db) (text : String)
      → rule.is_active ≡ 1
      → truthy (some text) ≡ true
      → find_matching_rules lower (some text) (record db { rules = db.rules ++ rule ∷ [] })
        ≡ find_matching_rules lower (some text) db
          ++ (if in_text rule.keyword_normalized (lower text) then rule ∷ [] else [])
  unfolding find_matching_rules active_rules
  find_matching_rules-append rule db text active t = rw t (found_append rule text db.rules active)
