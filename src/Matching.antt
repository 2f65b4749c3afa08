-- ===== src/Matching.antt =====
-- app/services/matching.py. `lower` stands for `str.lower`, whose table of Unicode cases is a
-- parameter wherever it is used.
pub mod Laws
use linkplease_tech_assignme.Base.{
  ℕ, Bool, true, false, not, ◌||◌, String, Option, none, some, List, [], ◌∷◌, ◌==◌, truthy, codes,
  contains, strip, select_where, if◌then◌else◌,
}
use linkplease_tech_assignme.Models.{Db, Rule}

-- `needle in text`
abbrev pub in_text : String → String → Bool
in_text needle text = contains (codes needle) (codes text)

unfoldable pub active_rules : Db → List Rule
active_rules db = select_where (λ r. r.is_active == 1) db.rules

module _ (lower : String → String) where
  unfoldable pub normalize_keyword : String → String
  normalize_keyword keyword = lower (strip keyword)

  unfoldable pub text_matches : String → Option String → Bool
  text_matches keyword_normalized none = false
  text_matches keyword_normalized (some text) =
      if not (truthy (some keyword_normalized)) || not (truthy (some text))
      then false
      else in_text keyword_normalized (lower text)

  unfoldable pub find_matching_rules : Option String → Db → List Rule
  unfolding active_rules
  find_matching_rules none db = []
  find_matching_rules (some text) db =
      if not (truthy (some text))
      then []
      else select_where (λ r. in_text r.keyword_normalized (lower text)) (active_rules db)
