-- ===== src/Mock/Client.antt =====
-- scripts/mock_pseudogram.py and app/services/pseudogram.py together: the client against the mock.
use linkplease_tech_assignme.Base.{
  ℕ, ◌≡◌, ◌⊎◌, refl, ap, ◌∙◌, true, String, Option, none, some, List, [], ◌∷◌, ◌++◌, Bool-cases,
  Option-cases, inl, inr, truthy, length, leb, str_eq,
}
use linkplease_tech_assignme.Config.{Settings}
use linkplease_tech_assignme.Models.{Time, DmJob}
use linkplease_tech_assignme.IdempotencyKey.{
  idempotency_key, idempotency_key_cong, idempotency_key_given,
}
use linkplease_tech_assignme.Pseudogram.{
  JsonObject, Response, Reply, FloatText, SendRequest, SendOutcome, SendResult, classify_response,
  configured,
}
use linkplease_tech_assignme.Pseudogram
use linkplease_tech_assignme.Workers.DmWorker.{request_of}
use linkplease_tech_assignme.Mock.{
  Mock, Draws, Send, Call, accepted_answer, given_key, send_dm, handle_all, admitted, limited,
  replay_or, known_dm, recent, max_sends,
}
use linkplease_tech_assignme.Mock.Replay.{send_dm-Accepted, send_dm-replayed, handle_all-known}

-- The request of the client, as it reaches the mock.
unfoldable pub received : SendRequest → Send
received r = record {
  idempotency_key = some r.idempotency_key;
  recipient_user_id = some r.recipient_user_id;
}

-- The outcomes that the mock can lead to, with what the worker needs of them.
abbrev pub Understood : SendResult → Type 0
Understood r =
    ((r.outcome ≡ SendOutcome.accepted) × ((d : String) × (r.dm_id ≡ some d)))
    ⊎ ((r.outcome ≡ SendOutcome.rate_limited)
        ⊎ ((r.outcome ≡ SendOutcome.invalid) ⊎ (r.outcome ≡ SendOutcome.server_error)))

module _ (dumps : JsonObject → String) (float : String → FloatText) where
  admitted-Understood :
      (now : Time) (draws : Draws) (send : Send) (m : Mock)
      → Understood (classify_response float (admitted dumps now draws send m).0)
  unfolding admitted classify_response str_eq
  admitted-Understood now draws send m = elim (Option-cases send.recipient_user_id) [
    | inl e ↦ rw (e, admitted) (inr (inr (inl refl)))
    | inr (user, e) ↦ elim (Bool-cases (truthy (some user))) [
      | inr t ↦ rw (e, admitted) (rw t (inr (inr (inl refl))))
      | inl t ↦ elim (Bool-cases draws.internal_error) [
        | inl i ↦ rw (e, admitted) (rw (t, i) (inr (inr (inr refl))))
        | inr i ↦ rw (e, admitted) (rw (t, i) (inl (refl, (draws.dm_id, refl))))
      ]
    ]
  ]

  limited-Understood :
      (now : Time) (draws : Draws) (send : Send) (m : Mock)
      → Understood (classify_response float (limited dumps now draws send m).0)
  unfolding limited classify_response
  limited-Understood now draws send m =
      elim (Bool-cases (leb max_sends (length (recent now m.send_times)))) [
        | inl full ↦ rw full (inr (inl refl))
        | inr room ↦ rw room (
            admitted-Understood now draws send
              (record m { send_times = recent now m.send_times ++ now ∷ [] }))
      ]

  replay-Understood :
      (now : Time) (draws : Draws) (send : Send) (m : Mock) (x : Option String)
      → Understood (classify_response float (replay_or dumps now draws send m x).0)
  unfolding replay_or classify_response str_eq
  replay-Understood now draws send m none = limited-Understood now draws send m
  replay-Understood now draws send m (some d) = inl (refl, (d, refl))

  -- The client understands every answer of the mock to a send: it is accepted with an identifier, rate
  -- limited, invalid or a server error, never unexpected and never an error of authentication.
  pub send_dm-Understood :
      (now : Time) (draws : Draws) (send : Send) (m : Mock)
      → Understood (classify_response float (send_dm dumps now draws send m).0)
  unfolding send_dm
  send_dm-Understood now draws send m =
      replay-Understood now draws send m (known_dm dumps (given_key send.idempotency_key) m)

  -- The mock, in some state, as the transport of the client.
  abbrev pub api : Time → Draws → Mock → SendRequest → Reply
  api now draws m request = Reply.response (send_dm dumps now draws (received request) m).0

  accepted_outcome :
      (d : String)
      → (classify_response float (accepted_answer dumps d)).outcome ≡ SendOutcome.accepted
  unfolding classify_response
  accepted_outcome d = refl

  given_cons : (key : List ℕ) (c : ℕ) (cs : List ℕ) → key ≡ c ∷ cs → given_key (some key) ≡ some key
  unfolding given_key
  given_cons key c cs e = rw e

  job_key :
      (j : DmJob) → given_key (received (request_of j)).idempotency_key ≡ some (idempotency_key j)
  unfolding request_of received
  job_key j = let (c, cs, e) = idempotency_key_given j in given_cons (idempotency_key j) c cs e

  client_of :
      (s : Settings) (transport : SendRequest → Reply) (request : SendRequest) (r : Response)
      → configured s ≡ true
      → transport request ≡ Reply.response r
      → Pseudogram.send_dm float transport s request ≡ classify_response float r
  unfolding Pseudogram.send_dm
  client_of s transport request r c e = rw (c, e) refl

  -- A send of a job whose answer was lost: once the mock has accepted it, a later send of the same job in
  -- the same send cycle, whatever was asked meanwhile, is accepted by the client and makes no second DM.
  pub resend_makes_no_dm :
      (s : Settings) (now now' : Time) (draws draws' : Draws) (m : Mock) (calls : List Call)
      (j j' : DmJob)
      → configured s ≡ true
      → j'.id ≡ j.id
      → j'.send_cycle ≡ j.send_cycle
      → (send_dm dumps now draws (received (request_of j)) m).0.status_code ≡ 202
      → let after =
          handle_all dumps calls (send_dm dumps now draws (received (request_of j)) m).1 in
        ((Pseudogram.send_dm float (api now' draws' after) s (request_of j')).outcome
          ≡ SendOutcome.accepted)
        × ((send_dm dumps now' draws' (received (request_of j')) after).1 ≡ after)
  resend_makes_no_dm s now now' draws draws' m calls j j' c same cycle ok =
      let k = idempotency_key j in
      let first = received (request_of j) in
      let again = received (request_of j') in
      let (d, _, known) = send_dm-Accepted dumps k now draws first m (job_key j) ok in
      let after = handle_all dumps calls (send_dm dumps now draws first m).1 in
      let key' : given_key again.idempotency_key ≡ some k =
        job_key j' ∙ ap some (idempotency_key_cong j' j same cycle) in
      let replay =
        send_dm-replayed dumps k d now' draws' again after key'
          (handle_all-known dumps k d calls (send_dm dumps now draws first m).1 known) in
      (
        ap (λ (r : SendResult). r.outcome)
              (client_of s (api now' draws' after) (request_of j') (accepted_answer dumps d) c
                (ap (λ (x : Response × Mock). Reply.response x.0) replay))
            ∙ accepted_outcome d,
        ap (λ (x : Response × Mock). x.1) replay,
      )
