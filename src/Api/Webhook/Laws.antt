-- ===== src/Api/Webhook/Laws.antt =====
-- app/api/webhook.py: what an answer says of the tables and of the request.
use linkplease_tech_assignme.Base.{
  ℕ, ◌≤◌, ◌≡◌, refl, Bool, true, false, Option, none, some, List, arith, ltb, length, Bool-cases,
  inl, inr,
}
use linkplease_tech_assignme.Config.{Settings, signing_secret}
use linkplease_tech_assignme.Models.{Db, Time}
use linkplease_tech_assignme.Security.{verify_signature}
use linkplease_tech_assignme.Events.{WebhookEvent, IngestResult, ingest_event}
use linkplease_tech_assignme.Events.Store.{is_stored}
use linkplease_tech_assignme.Events.Ingest.{
  Grown, ingest-stored, ingest_frame, ingest-Grown, ingest-jobs,
}
use linkplease_tech_assignme.Api.Webhook.{
  Decoded, not_json, not_a_dict, dict, WebhookAck, Answer, acknowledged, http_exception, unhandled,
  Request, Outside, answer_stored, store_payload, validated, parse_body, by_signature, authenticate,
  receive_webhook,
}

-- An acknowledged event is stored, the acknowledgement says whether it was stored before, and nothing
-- but the events and the counters is written.
pub record Stored (db : Db) (ack : WebhookAck) (db' : Db) : Type 0 where
  pub kept : is_stored ack.event_id db' ≡ true
  pub told : ack.duplicate ≡ is_stored ack.event_id db
  pub jobs : db'.jobs ≡ db.jobs
  pub frame : db' ≡ record db {
    events = db'.events;
    next_event_id = db'.next_event_id;
    counters = db'.counters;
  }
  pub grown : Grown db db'

-- Any other answer leaves the tables as they were.
abbrev pub Answered : Db → Answer × Db → Type 0
Answered db (acknowledged a, db') = Stored db a db'
Answered db (http_exception code, db') = db' ≡ db
Answered db (unhandled, db') = db' ≡ db

-- The body is no larger than the settings allow, and signed where they want that.
pub record Admitted (o : Outside) (s : Settings) (request : Request) : Type 0 where
  pub size : length request.raw_body ≤ s.max_webhook_body_bytes
  pub signed :
      s.verify_webhook_signature ≡ true
      → verify_signature o.lower o.hmac (signing_secret s) request.raw_body request.signature
        ≡ some true

abbrev pub is_ack : Answer → Bool
is_ack (acknowledged a) = true
is_ack (http_exception code) = false
is_ack unhandled = false

module _ (o : Outside) (s : Settings) (now : Time) where
  stored-Answered :
      (payload : WebhookEvent) (db : Db) (x : Option (IngestResult × Db))
      → ingest_event o.lower o.from_iso s payload now db ≡ x
      → Answered db (answer_stored o s now payload db x)
  unfolding answer_stored
  stored-Answered payload db none e = refl
  stored-Answered payload db (some x) e =
      let (kept, told) = ingest-stored o.lower o.from_iso s payload now db x e in
      record {
        kept = kept;
        told = told;
        jobs = ingest-jobs o.lower o.from_iso s payload now db x e;
        frame = ingest_frame o.lower o.from_iso s payload now db x e;
        grown = ingest-Grown o.lower o.from_iso s payload now db x e;
      }

  store-Answered :
      (payload : WebhookEvent) (db : Db) → Answered db (store_payload o s now payload db)
  unfolding store_payload
  store-Answered payload db = elim (Bool-cases o.stores) [
    | inl e ↦ rw e (stored-Answered payload db _ refl)
    | inr e ↦ rw e refl
  ]

  validated-Answered : (p : Option WebhookEvent) (db : Db) → Answered db (validated o s now p db)
  unfolding validated
  validated-Answered none db = refl
  validated-Answered (some p) db = store-Answered p db

  parse-Answered : (d : Decoded o.J) (db : Db) → Answered db (parse_body o s now d db)
  unfolding parse_body
  parse-Answered not_json db = refl
  parse-Answered not_a_dict db = refl
  parse-Answered (dict j) db = validated-Answered (o.validate j) db

  by_signature-Answered :
      (v : Option Bool) (raw_body : List ℕ) (db : Db)
      → Answered db (by_signature o s now v raw_body db)
  unfolding by_signature
  by_signature-Answered none raw_body db = refl
  by_signature-Answered (some false) raw_body db = refl
  by_signature-Answered (some true) raw_body db = parse-Answered (o.decode raw_body) db

  authenticate-Answered :
      (wanted : Bool) (request : Request) (db : Db)
      → Answered db (authenticate o s now wanted request db)
  unfolding authenticate
  authenticate-Answered true request db = by_signature-Answered _ request.raw_body db
  authenticate-Answered false request db = parse-Answered (o.decode request.raw_body) db

  -- Where the receiver acknowledges a webhook, the event is stored, the acknowledgement tells whether
  -- it was a duplicate, the events grew by at most one, whose `event_id` was not among them, and nothing
  -- but the events, their next key and the counters is written; every other answer leaves all tables as
  -- they were.
  pub receive_webhook-Answered :
      (request : Request) (db : Db) → Answered db (receive_webhook o s now request db)
  unfolding receive_webhook
  receive_webhook-Answered request db =
      elim (Bool-cases (ltb s.max_webhook_body_bytes (length request.raw_body))) [
        | inl large ↦ rw large refl
        | inr small ↦ rw small (authenticate-Answered s.verify_webhook_signature request db)
      ]

  by_signature-signed :
      (v : Option Bool) (raw_body : List ℕ) (db : Db)
      → is_ack (by_signature o s now v raw_body db).0 ≡ true
      → v ≡ some true
  unfolding by_signature
  by_signature-signed none raw_body db h = cc
  by_signature-signed (some false) raw_body db h = cc
  by_signature-signed (some true) raw_body db h = refl

  authenticate-signed :
      (wanted : Bool) (request : Request) (db : Db)
      → is_ack (authenticate o s now wanted request db).0 ≡ true
      → wanted ≡ true
      → verify_signature o.lower o.hmac (signing_secret s) request.raw_body request.signature
        ≡ some true
  unfolding authenticate
  authenticate-signed true request db h w = by_signature-signed _ request.raw_body db h
  authenticate-signed false request db h w = cc

  -- Only a body within the limit, and signed where the settings want a signature, is acknowledged.
  pub receive_webhook-Admitted :
      (request : Request) (db : Db)
      → is_ack (receive_webhook o s now request db).0 ≡ true
      → Admitted o s request
  unfolding receive_webhook
  receive_webhook-Admitted request db h =
      elim (Bool-cases (ltb s.max_webhook_body_bytes (length request.raw_body))) [
        | inl large ↦ absurd (ground arith)
        | inr small ↦ record {
          size = ground arith;
          signed = authenticate-signed s.verify_webhook_signature request db (rw small at h);
        }
      ]

Answered-frame :
    (db : Db) (x : Answer × Db)
    → Answered db x
    → (x.1 ≡ record db {
      events = x.1.events;
      next_event_id = x.1.next_event_id;
      counters = x.1.counters;
    })
      × Grown db x.1
Answered-frame db (acknowledged a, db') h = (h.frame, h.grown)
Answered-frame db (http_exception code, db') h = (rw h refl, inl (rw h refl))
Answered-frame db (unhandled, db') h = (rw h refl, inl (rw h refl))

-- A webhook writes the events, their next key and the counters, whatever it answers.
pub webhook_frame :
    (o : Outside) (s : Settings) (now : Time) (request : Request) (db : Db)
    → let db' = (receive_webhook o s now request db).1 in
      (db' ≡ record db {
        events = db'.events;
        next_event_id = db'.next_event_id;
        counters = db'.counters;
      })
      × Grown db db'
webhook_frame o s now request db = Answered-frame db _ (receive_webhook-Answered o s now request db)
