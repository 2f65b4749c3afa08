-- ===== src/TestWebhook.antt =====
-- scripts/send_test_webhook.py: the requests that the script sends. `dumps` is `json.dumps` and its
-- encoding, `new_id` the texts that
-- `uuid.uuid4` gives, and `clock` and `later` the two times of a payload, as texts. What the script
-- prints is left out.
use linkplease_tech_assignme.Base.{
  strip, subst, refl, ℕ, zero, suc, ◌≡◌, Bool, true, false, not, ◌&&◌, String, Option, none, some,
  List, [], ◌∷◌, All, truthy, or_else, if◌then◌else◌, append_text, codes,
}
use linkplease_tech_assignme.Config.{Settings, signing_secret, strip_fields}
use linkplease_tech_assignme.Security.{signature_header_value, verify_signature}
use linkplease_tech_assignme.Security.Signing.{all_hex, all_plain, signed-verifies}
use linkplease_tech_assignme.Events.{WebhookEvent}
use linkplease_tech_assignme.Api.Webhook.{Request}

pub record Args : Type 0 where
  pub event_id : Option String
  pub event_type : String
  pub text : String
  pub user_id : String
  pub username : String
  pub comment_id : String
  pub repeat : ℕ
  pub unsigned : Bool

-- `os.getenv("WEBHOOK_SIGNING_SECRET") or os.getenv("PSEUDOGRAM_API_KEY", "")`
pub secret_of : Option String → Option String → String
secret_of signing none = elim (or_else signing none) [ none ↦ "" | some s ↦ s ]
secret_of signing (some key) = elim (or_else signing (some key)) [ none ↦ "" | some s ↦ s ]

-- `args.event_id or f"evt_{…}"`
abbrev event_id_of : Option String → String → String
event_id_of none fresh = fresh
event_id_of (some id) fresh = if truthy (some id) then id else fresh

pub payload_of : Args → String → String → String → WebhookEvent
payload_of args fresh sent created = record {
  event_id = event_id_of args.event_id (append_text "evt_" fresh);
  event_type = args.event_type;
  sent_at = some sent;
  body = record {
    comment_id = some args.comment_id;
    post_id = some "post_44de1b";
    text = some args.text;
    created_at = some created;
    from_ = some (record { user_id = some args.user_id; username = some args.username });
  };
}

module _ (lower : String → String) (hmac : String → List ℕ → String) (dumps : WebhookEvent → List ℕ)
    (new_id clock later : ℕ → String) where
  -- The headers that matter: the signature.
  signature_for : String → Bool → List ℕ → Option String
  signature_for secret unsigned body =
      if truthy (some secret) && not unsigned
      then some (signature_header_value lower hmac secret body)
      else none

  request_at : String → Args → ℕ → Request
  unfolding signature_for payload_of
  request_at secret args index =
      let body = dumps (payload_of args (new_id index) (clock index) (later index)) in
      record { raw_body = body; signature = signature_for secret args.unsigned body }

  -- `for index in range(args.repeat)`, from `index` on.
  requests : String → Args → ℕ → ℕ → List Request
  unfolding request_at
  requests secret args index zero = []
  requests secret args index (suc left) =
      request_at secret args index ∷ requests secret args (suc index) left

  -- With the two variables of the environment.
  pub run_script : Option String → Option String → Args → List Request
  unfolding requests secret_of
  run_script signing key args = requests (secret_of signing key) args 0 args.repeat

  signed_requests :
      (secret : String) (args : Args) (index left : ℕ)
      → ((body : List ℕ) → all_hex (codes (hmac secret body)) ≡ true)
      → ((t : String) → all_plain (codes t) ≡ true → lower t ≡ t)
      → truthy (some secret) ≡ true
      → args.unsigned ≡ false
      → All
          (λ (r : Request). verify_signature lower hmac secret r.raw_body r.signature ≡ some true)
          (requests secret args index left)
  unfolding requests request_at signature_for
  signed_requests secret args index zero hex low given signed = tt
  signed_requests secret args index (suc left) hex low given signed =
      let body = dumps (payload_of args (new_id index) (clock index) (later index)) in
      (
        rw (given, signed) (signed-verifies lower hmac secret body (hex body) low given),
        signed_requests secret args (suc index) left hex low given signed,
      )

  same_secret :
      (raw : Settings)
      → strip raw.webhook_signing_secret ≡ raw.webhook_signing_secret
      → strip raw.pseudogram_api_key ≡ raw.pseudogram_api_key
      → signing_secret (strip_fields raw)
        ≡ secret_of (some raw.webhook_signing_secret) (some raw.pseudogram_api_key)
  unfolding signing_secret strip_fields secret_of
  same_secret raw a b = rw (a, b) (by_test (truthy (some raw.webhook_signing_secret)))
    where
      by_test :
          (t : Bool)
          → (if t then raw.webhook_signing_secret else raw.pseudogram_api_key)
            ≡ elim (if t then some raw.webhook_signing_secret else some raw.pseudogram_api_key)
                as (λ _. String) [ none ↦ "" | some x ↦ x ]
      by_test true = refl
      by_test false = refl

  -- Where digests are lower-case hexadecimal texts, `lower` leaves a text without capitals as it is, and
  -- the two variables of the environment, the same for the script and the receiver, have no blanks
  -- around them, every request that the script signs passes the check of its signature at the receiver.
  pub run_script-verifies :
      (raw : Settings) (args : Args)
      → ((body : List ℕ) → all_hex (codes (hmac (signing_secret (strip_fields raw)) body)) ≡ true)
      → ((t : String) → all_plain (codes t) ≡ true → lower t ≡ t)
      → strip raw.webhook_signing_secret ≡ raw.webhook_signing_secret
      → strip raw.pseudogram_api_key ≡ raw.pseudogram_api_key
      → truthy (some (signing_secret (strip_fields raw))) ≡ true
      → args.unsigned ≡ false
      → All
          (λ (r : Request).
            verify_signature lower hmac (signing_secret (strip_fields raw)) r.raw_body r.signature
            ≡ some true)
          (run_script (some raw.webhook_signing_secret) (some raw.pseudogram_api_key) args)
  unfolding run_script
  run_script-verifies raw args hex low a b given signed =
      let secret = signing_secret (strip_fields raw) in
      subst
        (λ x.
          All
            (λ (r : Request). verify_signature lower hmac secret r.raw_body r.signature ≡ some true)
            (requests x args 0 args.repeat))
        (same_secret raw a b) (signed_requests secret args 0 args.repeat hex low given signed)
