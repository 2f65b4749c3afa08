-- ===== src/Pseudogram/Laws.antt =====
-- app/services/pseudogram.py, send_dm: status codes and outcomes.
use linkplease_tech_assignme.Base.{ℕ, ◌≡◌, ◌≢◌, ◌≤◌, ◌<◌, ◌↔◌, ◌⊎◌, String, arith}
use linkplease_tech_assignme.Pseudogram.{SendOutcome, Response, FloatText, classify_response}

-- What an outcome says of the status code.
abbrev pub CodeFits : SendOutcome → ℕ → Type 0
CodeFits SendOutcome.accepted c = (200 ≤ c) × (c ≤ 202)
CodeFits SendOutcome.rate_limited c = c ≡ 429
CodeFits SendOutcome.server_error c = (500 ≤ c) ⊎ ((c ≡ 408) ⊎ (c ≡ 409))
CodeFits SendOutcome.auth_error c = (c ≡ 401) ⊎ (c ≡ 403)
CodeFits SendOutcome.invalid c =
    (400 ≤ c) × (c < 500) × (c ≢ 401) × (c ≢ 403) × (c ≢ 408) × (c ≢ 409) × (c ≢ 429)
CodeFits SendOutcome.transport_error c = ⊥
CodeFits SendOutcome.unexpected c = (c < 400) × ((c < 200) ⊎ (202 < c))

module _ (float : String → FloatText) (r : Response) where
  classify_to :
      (o : SendOutcome) → (classify_response float r).outcome ≡ o → CodeFits o r.status_code
  unfolding classify_response
  classify_to SendOutcome.accepted h = ground arith
  classify_to SendOutcome.rate_limited h = ground arith
  classify_to SendOutcome.server_error h = ground arith
  classify_to SendOutcome.auth_error h = ground arith
  classify_to SendOutcome.invalid h = ground arith
  classify_to SendOutcome.transport_error h = ground arith
  classify_to SendOutcome.unexpected h = ground arith

  classify_back :
      (o : SendOutcome) → CodeFits o r.status_code → (classify_response float r).outcome ≡ o
  unfolding classify_response
  classify_back SendOutcome.accepted h = ground arith
  classify_back SendOutcome.rate_limited h = ground arith
  classify_back SendOutcome.server_error h = ground arith
  classify_back SendOutcome.auth_error h = ground arith
  classify_back SendOutcome.invalid h = ground arith
  classify_back SendOutcome.transport_error h = absurd h
  classify_back SendOutcome.unexpected h = ground arith

-- `classify_response` gives an outcome exactly when the status code of the response fits it.
pub classify_response_iff :
    (float : String → FloatText) (r : Response) (o : SendOutcome)
    → ((classify_response float r).outcome ≡ o) ↔ CodeFits o r.status_code
classify_response_iff float r o = (classify_to float r o, classify_back float r o)
