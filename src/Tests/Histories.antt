-- ===== src/Tests/Histories.antt =====
-- A run of the whole program begins with a rule.
use linkplease_tech_assignme.Base.{arith, ◌≡◌, refl, str_eq, strip, [], ◌∷◌}
use linkplease_tech_assignme.Models.{empty_db}
use linkplease_tech_assignme.Matching.{normalize_keyword}
use linkplease_tech_assignme.Jobs.Sound.{HasBudgets}
use linkplease_tech_assignme.Api.Rules.{made, create_rule}
use linkplease_tech_assignme.System.{State, empty_state}
use linkplease_tech_assignme.Tests.Endpoints.{signed_settings, lowered, sale, sale_rule, sale_out}

pub signed_budgets : HasBudgets signed_settings
signed_budgets = record { sends = ground arith; deliveries = ground arith }

abbrev pub ruled : State
ruled = record empty_state { db = record empty_db { rules = sale_rule ∷ [] } }

pub rule_run : create_rule lowered "r2" sale 50 empty_db ≡ made sale_out ruled.db
unfolding create_rule normalize_keyword strip str_eq
rule_run = refl
