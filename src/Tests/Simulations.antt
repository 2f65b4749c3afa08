-- ===== src/Tests/Simulations.antt =====
-- A simulation of three deliveries: a comment, its redelivery, and a comment of the same user.
use linkplease_tech_assignme.Base.{
  ◌+◌, ◌≡◌, refl, true, false, String, some, none, List, [], ◌∷◌, map, str_eq, contains, Option,
  length, ◌≤◌, arith,
}
use linkplease_tech_assignme.Models.{Db, Rule, Time}
use linkplease_tech_assignme.Counters
use linkplease_tech_assignme.Clock.{Datetime, parse_iso8601}
use linkplease_tech_assignme.Jobs.Stats.{compute_stats}
use linkplease_tech_assignme.Mock.Simulation.{Draw, payloads, tally_all, expected}
use linkplease_tech_assignme.Events.{WebhookEvent, ingest_event}
use linkplease_tech_assignme.Events.Burst.{Repeats}
use linkplease_tech_assignme.Events.Received.Truth.{
  receive_all, Simulates, one_rule, truth, stats_match_truth,
}
use linkplease_tech_assignme.Events.Processing.{process_pending_events, Fate}
use linkplease_tech_assignme.Tests.Endpoints.{lowered, signed_settings}

abbrev price_rule : Rule
price_rule = record {
  id = "r1";
  keyword = "PRICE";
  keyword_normalized = "PRICE";
  dm_message = "See the list";
  is_active = 1;
  created_at = 0;
}

abbrev no_iso : String → Option Datetime
no_iso _ = none

abbrev draw : Draw
draw = record {
  redelivers = false;
  choice = 0;
  hits = true;
  user = 7;
  stamp = "2026-01-01T00:00:00Z";
  created = "2026-01-01T00:00:00Z";
}

abbrev sent : List WebhookEvent
sent = payloads "abc123" "PRICE" (draw ∷ record draw { redelivers = true } ∷ draw ∷ [])

abbrev timed : WebhookEvent → WebhookEvent × Time
timed p = (p, 40)

abbrev before : Db
before = one_rule lowered no_iso "PRICE" price_rule refl refl signed_settings

abbrev received_db : Db
received_db = elim (receive_all lowered no_iso signed_settings (map timed sent) before) [
  | none ↦ before
  | some db ↦ db
]

no_exception : receive_all lowered no_iso signed_settings (map timed sent) before ≡ some received_db
unfolding receive_all payloads ingest_event parse_iso8601 str_eq
no_exception = refl

simulated : Simulates [] (map timed sent)
unfolding Simulates payloads Repeats str_eq
simulated = (
  record {
    from_user = record { user_id = some "usr_sim_7"; username = some "u_usr_sim_7" };
    user = "usr_sim_7";
    text = "PRICE please";
    kind = refl;
    from_is = refl;
    user_is = refl;
    user_given = refl;
    text_is = refl;
    text_given = refl;
  },
  tt,
  (
    record {
      from_user = record { user_id = some "usr_sim_7"; username = some "u_usr_sim_7" };
      user = "usr_sim_7";
      text = "PRICE please";
      kind = refl;
      from_is = refl;
      user_is = refl;
      user_given = refl;
      text_is = refl;
      text_given = refl;
    },
    (λ same. refl, tt),
    (
      record {
        from_user = record { user_id = some "usr_sim_7"; username = some "u_usr_sim_7" };
        user = "usr_sim_7";
        text = "PRICE please";
        kind = refl;
        from_is = refl;
        user_is = refl;
        user_given = refl;
        text_is = refl;
        text_given = refl;
      },
      (λ same. absurd (cc), (λ same. absurd (cc), tt)),
      tt,
    ),
  ),
)

two_events : length received_db.events ≡ 2
unfolding receive_all payloads ingest_event parse_iso8601 str_eq Counters.increment
two_events = refl

received_fit : length received_db.events ≤ 100
received_fit = rw two_events (omega arith)

stats_match_truth_example :
    let stats =
      compute_stats
        (process_pending_events lowered (λ _. Fate.committed) (λ _ d. d) 50 100 received_db).1 in
    let told = truth lowered no_iso "PRICE" price_rule refl refl signed_settings (map timed sent) in
    (stats.sent + stats.failed + stats.queued ≡ told.sent)
    × (stats.duplicates_blocked ≡ told.duplicates_blocked)
stats_match_truth_example =
    stats_match_truth lowered no_iso "PRICE" price_rule refl refl signed_settings (map timed sent)
      100 50 received_db simulated no_exception received_fit

-- Two events of one user: one DM, and one duplicate.
told_truth :
    truth lowered no_iso "PRICE" price_rule refl refl signed_settings (map timed sent)
    ≡ record { sent = 1; failed = 0; queued = 0; duplicates_blocked = 1 }
unfolding payloads tally_all expected str_eq contains
told_truth = refl
