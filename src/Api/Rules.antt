-- ===== src/Api/Rules.antt =====
-- app/api/rules.py: creating and listing rules. `lower` is `str.lower`; the key of a new rule, from
-- `uuid4`, is an argument.
use linkplease_tech_assignme.Base.{
  ℕ, ◌≡◌, refl, sym, ap, true, String, some, List, [], ◌∷◌, ◌++◌, arith, leb, truthy, str_eq,
  is_empty, strip, strip_idem, if◌then◌else◌, any_where, order_by, map, subst,
}
use linkplease_tech_assignme.Models.{Db, Time, Rule}
use linkplease_tech_assignme.Matching.Laws.{find_matching_rules-append}
use linkplease_tech_assignme.Matching.{
  in_text, active_rules, normalize_keyword, find_matching_rules,
}

pub record RuleCreate : Type 0 where
  pub keyword : String
  pub dm_message : String

pub record RuleOut : Type 0 where
  pub rule_id : String
  pub keyword : String
  pub dm_message : String

-- The answer 201, an `HTTPException`, or the `IntegrityError` of a key that is taken.
pub data Created : Type 0 where
  made : RuleOut → Db → Created
  refused : ℕ → String → Created
  integrity_error : Created

abbrev rule_out : Rule → RuleOut
rule_out r = record { rule_id = r.id; keyword = r.keyword; dm_message = r.dm_message }

insert_rule : Rule → Db → Created
insert_rule rule db =
    if any_where (λ (r : Rule). str_eq r.id rule.id) db.rules
    then integrity_error
    else made (rule_out rule) (record db { rules = db.rules ++ rule ∷ [] })

module _ (lower : String → String) where
  new_rule : String → RuleCreate → Time → Rule
  new_rule id payload now = record {
    id = id;
    keyword = strip payload.keyword;
    keyword_normalized = normalize_keyword lower (strip payload.keyword);
    dm_message = strip payload.dm_message;
    is_active = 1;
    created_at = now;
  }

  unfoldable pub create_rule : String → RuleCreate → Time → Db → Created
  unfolding new_rule insert_rule
  create_rule id payload now db =
      if is_empty (strip payload.keyword)
      then refused 400 "keyword must not be empty"
      else if is_empty (strip payload.dm_message)
      then refused 400 "dm_message must not be empty"
      else insert_rule (new_rule id payload now) db

pub list_rules : Db → List RuleOut
list_rules db = map rule_out (order_by (λ r q. leb r.created_at q.created_at) (active_rules db))

-- A rule of `db'` that is new, and what it sends for.
pub record Added (lower : String → String) (payload : RuleCreate) (db : Db) (out : RuleOut)
    (db' : Db) : Type 0 where
  pub rule : Rule
  pub told :
      (out.rule_id ≡ rule.id) × (out.keyword ≡ rule.keyword) × (out.dm_message ≡ rule.dm_message)
  pub appended : db' ≡ record db { rules = db.rules ++ rule ∷ [] }
  pub matched :
      (text : String)
      → truthy (some text) ≡ true
      → find_matching_rules lower (some text) db'
        ≡ find_matching_rules lower (some text) db
          ++ (if in_text (lower (strip payload.keyword)) (lower text) then rule ∷ [] else [])

insert_rule-made :
    (rule : Rule) (db : Db) {out : RuleOut} {db' : Db}
    → insert_rule rule db ≡ made out db'
    → (out ≡ rule_out rule) × (db' ≡ record db { rules = db.rules ++ rule ∷ [] })
unfolding insert_rule
insert_rule-made rule db h = ground arith

module _ (lower : String → String) where
  create_rule-made :
      (id : String) (payload : RuleCreate) (now : Time) (db : Db) {out : RuleOut} {db' : Db}
      → create_rule lower id payload now db ≡ made out db'
      → (out ≡ rule_out (new_rule lower id payload now))
        × (db' ≡ record db { rules = db.rules ++ new_rule lower id payload now ∷ [] })
  unfolding create_rule
  create_rule-made id payload now db h =
      insert_rule-made (new_rule lower id payload now) db (ground arith)

  new_rule_lem :
      (id : String) (payload : RuleCreate) (now : Time)
      → ((new_rule lower id payload now).keyword_normalized ≡ lower (strip payload.keyword))
        × ((new_rule lower id payload now).is_active ≡ 1)
  unfolding new_rule normalize_keyword
  new_rule_lem id payload now = (ap lower (strip_idem payload.keyword), refl)

  -- A rule that was created is appended to the table as it was answered, and from then on a text finds
  -- what it found before, and the new rule behind that exactly when its lower-cased form holds the
  -- stripped keyword in lower case.
  pub create_rule-Added :
      (id : String) (payload : RuleCreate) (now : Time) (db : Db) {out : RuleOut} {db' : Db}
      → create_rule lower id payload now db ≡ made out db'
      → Added lower payload db out db'
  create_rule-Added id payload now db h =
      let (told, appended) = create_rule-made id payload now db h in
      let rule = new_rule lower id payload now in
      let (normal, active) = new_rule_lem id payload now in
      record {
        rule = rule;
        told = (rw told, rw told, rw told);
        appended = appended;
        matched = λ text t.
            subst
              (λ (d : Db).
                find_matching_rules lower (some text) d
                ≡ find_matching_rules lower (some text) db
                  ++ (if in_text (lower (strip payload.keyword)) (lower text)
                      then rule ∷ []
                      else []))
              (sym appended)
              (subst
                (λ k.
                  find_matching_rules lower (some text)
                    (record db { rules = db.rules ++ rule ∷ [] })
                  ≡ find_matching_rules lower (some text) db
                    ++ (if in_text k (lower text) then rule ∷ [] else []))
                normal (find_matching_rules-append lower rule db text active t));
      }

  -- A new rule writes the rules and nothing else.
  pub created_frame :
      (id : String) (payload : RuleCreate) (now : Time) (db : Db) {out : RuleOut} {db' : Db}
      → create_rule lower id payload now db ≡ made out db'
      → db' ≡ record db { rules = db'.rules }
  created_frame id payload now db h =
      let (_, appended) = create_rule-made id payload now db h in rw appended refl
