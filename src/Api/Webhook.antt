-- ===== src/Api/Webhook.antt =====
-- app/api/webhook.py: the receiver of webhooks. `decode` is `json.loads` on the body, and `validate`
-- the validation by pydantic of a JSON object against `WebhookEvent`.
pub mod Laws
use linkplease_tech_assignme.Base.{
  ℕ, Bool, true, false, not, String, Option, none, some, List, [], ◌∷◌, ltb, if◌then◌else◌, length,
}
use linkplease_tech_assignme.Config.{Settings, signing_secret}
use linkplease_tech_assignme.Models.{Db, Time}
use linkplease_tech_assignme.Clock.{Datetime}
use linkplease_tech_assignme.Security.{verify_signature}
use linkplease_tech_assignme.Events.{WebhookEvent, IngestResult, ingest_event}

-- What `json.loads` gives: an exception, a value that is no object, or an object.
pub data Decoded (J : Type 0) : Type 0 where
  not_json not_a_dict : Decoded J
  dict : J → Decoded J

-- `WebhookAck`
pub record WebhookAck : Type 0 where
  pub status : String
  pub event_id : String
  pub duplicate : Bool

-- The answer: 200 with its body, an `HTTPException` with its status code, or an exception that the
-- handler does not handle.
pub data Answer : Type 0 where
  acknowledged : WebhookAck → Answer
  http_exception : ℕ → Answer
  unhandled : Answer

pub record Request : Type 0 where
  pub raw_body : List ℕ
  pub signature : Option String

-- Everything outside: the case table, the HMAC, the reading of JSON and of times, the validation,
-- and whether the database takes the transaction.
pub record Outside : Type 1 where
  pub J : Type 0
  pub lower : String → String
  pub hmac : String → List ℕ → String
  pub decode : List ℕ → Decoded J
  pub validate : J → Option WebhookEvent
  pub from_iso : String → Option Datetime
  pub stores : Bool

abbrev ack : WebhookEvent → Bool → WebhookAck
ack payload duplicate = record {
  status = if duplicate then "duplicate" else "accepted";
  event_id = payload.event_id;
  duplicate = duplicate;
}

module _ (o : Outside) (settings : Settings) (now : Time) where
  -- `_store`, and the answer that the handler gives by it.
  answer_stored : WebhookEvent → Db → Option (IngestResult × Db) → Answer × Db
  answer_stored payload db none = (http_exception 503, db)
  answer_stored payload db (some (result, db')) = (acknowledged (ack payload result.duplicate), db')

  store_payload : WebhookEvent → Db → Answer × Db
  unfolding answer_stored
  store_payload payload db =
      if o.stores
      then answer_stored payload db (ingest_event o.lower o.from_iso settings payload now db)
      else (http_exception 503, db)

  validated : Option WebhookEvent → Db → Answer × Db
  unfolding store_payload
  validated none db = (http_exception 400, db)
  validated (some payload) db = store_payload payload db

  parse_body : Decoded o.J → Db → Answer × Db
  unfolding validated
  parse_body not_json db = (http_exception 400, db)
  parse_body not_a_dict db = (http_exception 400, db)
  parse_body (dict j) db = validated (o.validate j) db

  -- By what `verify_signature` says.
  by_signature : Option Bool → List ℕ → Db → Answer × Db
  unfolding parse_body
  by_signature none raw_body db = (unhandled, db)
  by_signature (some false) raw_body db = (http_exception 401, db)
  by_signature (some true) raw_body db = parse_body (o.decode raw_body) db

  -- By whether the settings want a signature.
  authenticate : Bool → Request → Db → Answer × Db
  unfolding by_signature parse_body
  authenticate true request db =
      by_signature
        (verify_signature o.lower o.hmac (signing_secret settings) request.raw_body
          request.signature)
        request.raw_body db
  authenticate false request db = parse_body (o.decode request.raw_body) db

  unfoldable pub receive_webhook : Request → Db → Answer × Db
  unfolding authenticate
  receive_webhook request db =
      if ltb settings.max_webhook_body_bytes (length request.raw_body)
      then (http_exception 413, db)
      else authenticate settings.verify_webhook_signature request db
