-- ===== src/Tests/Endpoints.antt =====
-- Runs of the endpoints.
use linkplease_tech_assignme.Base.{
  ℕ, ◌≡◌, refl, true, str_eq, strip, is_prefix, String, none, some, List, [], ◌∷◌,
}
use linkplease_tech_assignme.Config.{Settings, default_settings, signing_secret}
use linkplease_tech_assignme.Models.{Rule}
use linkplease_tech_assignme.Matching.{normalize_keyword}
use linkplease_tech_assignme.Clock.{parse_iso8601}
use linkplease_tech_assignme.Security.{provided_digest, verify_signature}
use linkplease_tech_assignme.Events.{WebhookEvent, ingest_event}
use linkplease_tech_assignme.Api.Rules.{
  RuleCreate, RuleOut, made, Added, create_rule, create_rule-Added,
}
use linkplease_tech_assignme.Api.Webhook.{Decoded, Request, Outside, receive_webhook}
use linkplease_tech_assignme.Api.Webhook.Laws.{
  is_ack, Answered, Admitted, receive_webhook-Answered, receive_webhook-Admitted,
}
use linkplease_tech_assignme.Tests.{rules_db, promo_rule}

abbrev pub lowered : String → String
lowered s = s

-- A digest that only tells apart empty bodies and others.
abbrev digest : String → List ℕ → String
digest secret [] = "00"
digest secret (c ∷ cs) = "ff"

abbrev payload : WebhookEvent
payload = record {
  event_id = "e9";
  event_type = "comment.created";
  sent_at = none;
  body = record {
    comment_id = some "c9";
    post_id = none;
    text = some "promo";
    created_at = none;
    from_ = none;
  };
}

abbrev pub outside : Outside
outside = record {
  J = String;
  lower = lowered;
  hmac = digest;
  decode = λ _. Decoded.dict "e9";
  validate = λ _. some payload;
  from_iso = λ _. none;
  stores = true;
}

abbrev pub signed_settings : Settings
signed_settings = record default_settings { pseudogram_api_key = "key" }

abbrev pub request : Request
request = record { raw_body = 123 ∷ 125 ∷ []; signature = some "sha256=ff" }

receive_webhook-Answered_example :
    Answered rules_db (receive_webhook outside signed_settings 40 request rules_db)
receive_webhook-Answered_example =
    receive_webhook-Answered outside signed_settings 40 request rules_db

acknowledged_run : is_ack (receive_webhook outside signed_settings 40 request rules_db).0 ≡ true
unfolding receive_webhook verify_signature provided_digest strip is_prefix str_eq ingest_event
    parse_iso8601 signing_secret
acknowledged_run = refl

receive_webhook-Admitted_example : Admitted outside signed_settings request
receive_webhook-Admitted_example =
    receive_webhook-Admitted outside signed_settings 40 request rules_db acknowledged_run

abbrev pub sale : RuleCreate
sale = record { keyword = " sale "; dm_message = "Half price" }

abbrev pub sale_rule : Rule
sale_rule = record {
  id = "r2";
  keyword = "sale";
  keyword_normalized = "sale";
  dm_message = "Half price";
  is_active = 1;
  created_at = 50;
}

abbrev pub sale_out : RuleOut
sale_out = record { rule_id = "r2"; keyword = "sale"; dm_message = "Half price" }

created_run :
    create_rule lowered "r2" sale 50 rules_db
    ≡ made sale_out (record rules_db { rules = promo_rule ∷ sale_rule ∷ [] })
unfolding create_rule normalize_keyword strip str_eq
created_run = refl

create_rule-Added_example :
    Added lowered sale rules_db sale_out (record rules_db { rules = promo_rule ∷ sale_rule ∷ [] })
create_rule-Added_example = create_rule-Added lowered "r2" sale 50 rules_db created_run
