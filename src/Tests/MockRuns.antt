-- ===== src/Tests/MockRuns.antt =====
-- Runs of the client against the mock API.
use linkplease_tech_assignme.Base.{◌≡◌, refl, true, false, String, none, some, List, [], ◌∷◌, arith}
use linkplease_tech_assignme.IdempotencyKey.{idempotency_key}
use linkplease_tech_assignme.Pseudogram.{
  FloatText, JsonObject, SendOutcome, classify_response, configured,
}
use linkplease_tech_assignme.Pseudogram
use linkplease_tech_assignme.RateLimiter.{Limiter, got, acquire}
use linkplease_tech_assignme.RateLimiter.History.{begin, send}
use linkplease_tech_assignme.Workers.DmWorker.{request_of}
use linkplease_tech_assignme.Mock.{
  Draws, Send, Call, send_call, get_call, empty_mock, send_dm, handle_all,
}
use linkplease_tech_assignme.Mock.Client.{
  received, api, Understood, send_dm-Understood, resend_makes_no_dm,
}
use linkplease_tech_assignme.Mock.Quota.{limiter_meets_quota}
use linkplease_tech_assignme.Tests.{waiting_job}
use linkplease_tech_assignme.Tests.Endpoints.{signed_settings}

abbrev dumps : JsonObject → String
dumps _ = "{}"

abbrev no_float : String → FloatText
no_float _ = FloatText.value_error

abbrev draws : Draws
draws = record { internal_error = false; will_fail = false; dm_id = "dm_1" }

abbrev other_draws : Draws
other_draws = record { internal_error = false; will_fail = false; dm_id = "dm_2" }

abbrev anonymous : Send
anonymous = record { idempotency_key = none; recipient_user_id = some "u1" }

send_dm-Understood_example :
    Understood (classify_response no_float (send_dm dumps 5 draws anonymous empty_mock).0)
send_dm-Understood_example = send_dm-Understood dumps no_float 5 draws anonymous empty_mock

key_set : configured signed_settings ≡ true
unfolding configured
key_set = refl

first_answer :
    (send_dm dumps 5 draws (received (request_of waiting_job)) empty_mock).0.status_code ≡ 202
unfolding send_dm request_of received idempotency_key
first_answer = refl

-- In between the status was asked, and another DM was sent.
abbrev between : List Call
between = get_call 6 "dm_1" ∷ send_call 7 other_draws anonymous ∷ []

resend_makes_no_dm_example :
    let after =
      handle_all dumps between
        (send_dm dumps 5 draws (received (request_of waiting_job)) empty_mock).1 in
    ((Pseudogram.send_dm no_float
        (api dumps no_float 9 other_draws after)
        signed_settings
        (request_of waiting_job)).outcome
      ≡ SendOutcome.accepted)
    × ((send_dm dumps 9 other_draws (received (request_of waiting_job)) after).1 ≡ after)
resend_makes_no_dm_example =
    resend_makes_no_dm dumps no_float signed_settings 5 9 draws other_draws empty_mock between
      waiting_job waiting_job key_set refl refl first_answer

abbrev limiter : Limiter
limiter = record {
  max_calls = 10;
  window_seconds = 60000000;
  safety_seconds = 500000;
  has_store = true;
  timestamps = [];
}

slot : acquire 1 (λ _. 0) 3 limiter ≡ got 3 (record limiter { timestamps = 3 ∷ [] })
unfolding acquire
slot = refl

limiter_meets_quota_example :
    (handle_all dumps (send_call 3 draws anonymous ∷ get_call 4 "dm_1" ∷ []) empty_mock).violations
    ≡ []
limiter_meets_quota_example =
    limiter_meets_quota dumps limiter (record limiter { timestamps = 3 ∷ [] }) 0 3 (3 ∷ [])
      (send_call 3 draws anonymous ∷ get_call 4 "dm_1" ∷ []) refl
      (send 1 (λ _. 0) 3 3 (record limiter { timestamps = 3 ∷ [] }) begin (omega arith) slot)
      (omega arith) (omega arith) refl (omega arith, (omega arith, tt))
