-- ===== src/Mock/Simulation.antt =====
-- scripts/mock_pseudogram.py: the simulation of a burst of webhooks, and the truth that it tells. A set
-- of texts is the list of its members in the order in which they came.

use linkplease_tech_assignme.Base.{
  ℕ, zero, suc, ◌+◌, ◌-◌, ◌/◌, ◌%◌, Bool, String, Option, none, some, List, [], ◌∷◌, ◌++◌, ltb,
  add_text, if◌then◌else◌, length, append_text,
}
use linkplease_tech_assignme.Matching.{in_text}
use linkplease_tech_assignme.Events.{WebhookEvent}
use linkplease_tech_assignme.Jobs.Stats.{StatsOut}
use linkplease_tech_assignme.Mock.{digit_text}

-- `str(n)`, on more fuel than it has digits.
decimal_from : (fuel : ℕ) → ℕ → String
decimal_from zero n = ""
decimal_from (suc fuel) n =
    let front = decimal_from fuel (n / 10) in
    if ltb n 10 then digit_text n else append_text front (digit_text (n % 10))

decimal : ℕ → String
unfolding decimal_from
decimal n = decimal_from (n + 1) n

-- What the random generator answers for one delivery, and the clock's two texts.
pub record Draw : Type 0 where
  pub redelivers : Bool
  pub choice : ℕ
  pub hits : Bool
  pub user : ℕ
  pub stamp : String
  pub created : String

-- `random.choice` of a list that begins with the payload.
choose : ℕ → WebhookEvent → List WebhookEvent → WebhookEvent
choose i p [] = p
choose zero p (q ∷ qs) = p
choose (suc i) p (q ∷ qs) = choose i q qs

module _ (run_prefix keyword : String) where
  fresh_payload : ℕ → Draw → WebhookEvent
  unfolding decimal
  fresh_payload index d =
      let user_id = append_text "usr_sim_" (decimal d.user) in
      record {
        event_id =
            append_text "evt_sim_" (append_text run_prefix (append_text "_" (decimal index)));
        event_type = "comment.created";
        sent_at = some d.stamp;
        body = record {
          comment_id = some (append_text "cmt_sim_" (decimal index));
          post_id = some "post_sim";
          text = some (if d.hits then append_text keyword " please" else "nice shot");
          created_at = some d.created;
          from_ =
              some (record { user_id = some user_id; username = some (append_text "u_" user_id) });
        };
      }

  -- A repetition of an earlier payload, if there is one and the draw says so, or a new one.
  next_payload : ℕ → Draw → List WebhookEvent → WebhookEvent × List WebhookEvent
  unfolding choose fresh_payload
  next_payload index d [] = let p = fresh_payload index d in (p, p ∷ [])
  next_payload index d (q ∷ qs) =
      let p = fresh_payload index d in
      if d.redelivers then (choose d.choice q qs, q ∷ qs) else (p, (q ∷ qs) ++ p ∷ [])

  payloads_from : ℕ → List Draw → List WebhookEvent → List WebhookEvent
  unfolding next_payload
  payloads_from index [] history = []
  payloads_from index (d ∷ ds) history =
      let (p, history') = next_payload index d history in p ∷ payloads_from (suc index) ds history'

  -- The payloads of a simulation, in the order of their deliveries.
  unfoldable pub payloads : List Draw → List WebhookEvent
  unfolding payloads_from
  payloads draws = payloads_from 0 draws []

pub record Tally : Type 0 where
  pub users : List String
  pub event_ids : List String
  pub deliveries : ℕ

abbrev pub no_tally : Tally
no_tally = record { users = []; event_ids = []; deliveries = 0 }

abbrev pub text_or : Option String → String
text_or none = ""
text_or (some t) = t

-- `payload["data"]["from"]["user_id"]`
abbrev pub sender : WebhookEvent → String
sender p = elim p.body.from_ [ none ↦ "" | some u ↦ text_or u.user_id ]

module _ (lower : String → String) (keyword : String) where
  -- `keyword.lower() in payload["data"]["text"].lower()`
  abbrev pub hits_keyword : WebhookEvent → Bool
  hits_keyword p = in_text (lower keyword) (lower (text_or p.body.text))

  unfoldable pub tally_one : WebhookEvent → Tally → Tally
  tally_one p t =
      if hits_keyword p
      then record {
        users = add_text (sender p) t.users;
        event_ids = add_text p.event_id t.event_ids;
        deliveries = t.deliveries + 1;
      }
      else t

  unfoldable pub tally_all : List WebhookEvent → Tally → Tally
  unfolding tally_one
  tally_all [] t = t
  tally_all (p ∷ ps) t = tally_all ps (tally_one p t)

-- `expected` of the truth.
unfoldable pub expected : Tally → StatsOut
expected t = record {
  sent = length t.users;
  failed = 0;
  queued = 0;
  duplicates_blocked = length t.event_ids - length t.users;
}

-- `expected_counting_redeliveries`
unfoldable pub expected_counting_redeliveries : Tally → StatsOut
expected_counting_redeliveries t = record {
  sent = length t.users;
  failed = 0;
  queued = 0;
  duplicates_blocked = t.deliveries - length t.users;
}
