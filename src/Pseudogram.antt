-- ===== src/Pseudogram.antt =====
-- app/services/pseudogram.py: what the client makes of the replies of the PseudoGram API. The HTTP
-- library and the service are the parameter `transport`, from a request to a reply.
pub mod Laws
pub mod Connection
use linkplease_tech_assignme.Base.{
  ℕ, Bool, true, false, not, ◌&&◌, ◌||◌, ◌++◌, String, Option, none, some, List, [], ◌∷◌, ◌==◌, leb,
  ltb, str_eq, truthy, or_else, if◌then◌else◌, count_chars, take_chars, append_text,
}
use linkplease_tech_assignme.Config.{Settings}

pub data SendOutcome : Type 0 where
  accepted rate_limited server_error invalid auth_error transport_error unexpected : SendOutcome

pub data StatusOutcome : Type 0 where
  ok not_found error : StatusOutcome

-- A float of seconds that is at least 0: whole microseconds, or infinity.
pub data Seconds : Type 0 where
  finite : ℕ → Seconds
  infinite : Seconds

pub record SendResult : Type 0 where
  pub outcome : SendOutcome
  pub dm_id : Option String
  pub status_code : Option ℕ
  pub retry_after : Option Seconds
  pub error : Option String

pub record StatusResult : Type 0 where
  pub outcome : StatusOutcome
  pub status : Option String
  pub status_code : Option ℕ
  pub error : Option String

-- What Python's `float` reads from a text, in microseconds, or `value_error`.
pub data FloatText : Type 0 where
  positive negative : ℕ → FloatText
  infinity minus_infinity nan value_error : FloatText

-- `max(0.0, x)` is 0.0 unless x is larger, so also for NaN.
parse_float : FloatText → Option Seconds
parse_float (FloatText.positive n) = some (finite n)
parse_float (FloatText.negative n) = some (finite 0)
parse_float FloatText.infinity = some infinite
parse_float FloatText.minus_infinity = some (finite 0)
parse_float FloatText.nan = some (finite 0)
parse_float FloatText.value_error = none

unfoldable pub parse_retry_after : (String → FloatText) → Option String → Option Seconds
unfolding parse_float
parse_retry_after float none = none
parse_retry_after float (some value) =
    if not (truthy (some value)) then none else parse_float (float value)

-- The members of a JSON object whose values are texts: those that the client reads are texts in the
-- documented replies.
abbrev pub JsonObject : Type 0
JsonObject = List (String × String)

-- What `response.json()` gives: an exception, a value that is no object, or an object.
pub data JsonBody : Type 0 where
  not_json not_an_object : JsonBody
  object : JsonObject → JsonBody

pub record Response : Type 0 where
  pub status_code : ℕ
  pub retry_after_header : Option String
  pub json : JsonBody
  pub text : String

-- `httpx.HTTPError` with its text, or a response.
pub data Reply : Type 0 where
  http_error : String → Reply
  response : Response → Reply

pub record SendRequest : Type 0 where
  pub recipient_user_id : String
  pub message : String
  pub comment_id : Option String
  pub idempotency_key : List ℕ

pub safe_json : JsonBody → JsonObject
safe_json not_json = []
safe_json not_an_object = []
safe_json (object members) = members

-- `body.get(key)`
pub body_get : String → JsonObject → Option String
body_get key [] = none
body_get key ((k, v) ∷ members) = if str_eq k key then some v else body_get key members

-- `body.get(key, default)`
body_get_or : String → String → JsonObject → String
unfolding body_get
body_get_or key default body = elim (body_get key body) [ some v ↦ v | none ↦ default ]

-- `_truncate(text)`, with the limit of 300 that every call has.
pub truncate : String → String
truncate text = if leb (count_chars text) 300 then text else append_text (take_chars 300 text) "..."

unfoldable pub configured : Settings → Bool
configured settings = truthy (some settings.pseudogram_api_key)

abbrev outcome_only : SendOutcome → String → SendResult
outcome_only outcome message = record {
  outcome = outcome;
  dm_id = none;
  status_code = none;
  retry_after = none;
  error = some message;
}

abbrev with_error : SendOutcome → ℕ → Option String → SendResult
with_error outcome code message = record {
  outcome = outcome;
  dm_id = none;
  status_code = some code;
  retry_after = none;
  error = message;
}

-- The part of `send_dm` after the response has come.
unfoldable pub classify_response : (String → FloatText) → Response → SendResult
unfolding safe_json body_get body_get_or truncate parse_retry_after
classify_response float r =
    let code = r.status_code in
    let body = safe_json r.json in
    let err = body_get "error" body in
    let detail = body_get "detail" body in
    let text = some (truncate r.text) in
    if code == 200 || code == 201 || code == 202
    then record {
      outcome = SendOutcome.accepted;
      dm_id = body_get "dm_id" body;
      status_code = some code;
      retry_after = none;
      error = none;
    }
    else if code == 429
    then record {
      outcome = SendOutcome.rate_limited;
      dm_id = none;
      status_code = some code;
      retry_after = parse_retry_after float r.retry_after_header;
      error = some (body_get_or "error" "rate_limited" body);
    }
    else if leb 500 code
    then with_error SendOutcome.server_error code (or_else err text)
    else if code == 401 || code == 403
    then with_error SendOutcome.auth_error code (or_else detail (or_else err (some "unauthorised")))
    else if code == 408 || code == 409
    then with_error SendOutcome.server_error code (or_else err text)
    else if leb 400 code && ltb code 500
    then with_error SendOutcome.invalid code (or_else detail (or_else err text))
    else with_error SendOutcome.unexpected code text

classify_reply : (String → FloatText) → Reply → SendResult
unfolding classify_response
classify_reply float (http_error e) = outcome_only SendOutcome.transport_error e
classify_reply float (response r) = classify_response float r

unfoldable pub send_dm :
    (String → FloatText) → (SendRequest → Reply) → Settings → SendRequest → SendResult
unfolding configured classify_reply
send_dm float transport settings request =
    if not (configured settings)
    then outcome_only SendOutcome.invalid "PSEUDOGRAM_API_KEY is not configured"
    else classify_reply float (transport request)

status_reply : Reply → StatusResult
unfolding safe_json body_get truncate
status_reply (http_error e) = record {
  outcome = StatusOutcome.error;
  status = none;
  status_code = none;
  error = some e;
}
status_reply (response r) =
    if r.status_code == 404
    then record {
      outcome = StatusOutcome.not_found;
      status = none;
      status_code = some 404;
      error = none;
    }
    else if leb 400 r.status_code
    then record {
      outcome = StatusOutcome.error;
      status = none;
      status_code = some r.status_code;
      error = some (truncate r.text);
    }
    else record {
      outcome = StatusOutcome.ok;
      status = body_get "status" (safe_json r.json);
      status_code = some r.status_code;
      error = none;
    }

-- `transport` maps the identifier in the path of the GET to the reply.
unfoldable pub get_dm_status : (String → Reply) → Settings → String → StatusResult
unfolding configured status_reply
get_dm_status transport settings dm_id =
    if not (configured settings)
    then record {
      outcome = StatusOutcome.error;
      status = none;
      status_code = none;
      error = some "PSEUDOGRAM_API_KEY is not configured";
    }
    else status_reply (transport dm_id)
