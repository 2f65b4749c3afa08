-- ===== src/Tests/Loops.antt =====
-- Runs of the start and the loops, from the tables with one job in the queue.
use linkplease_tech_assignme.Base.{
  ℕ, ◌≡◌, refl, true, false, String, some, none, List, [], ◌∷◌, All, codes, truthy, strip,
}
use linkplease_tech_assignme.Config.{Settings, signing_secret, strip_fields}
use linkplease_tech_assignme.Models.{Db}
use linkplease_tech_assignme.Security.{verify_signature}
use linkplease_tech_assignme.Security.Signing.{all_hex}
use linkplease_tech_assignme.Events.{WebhookEvent}
use linkplease_tech_assignme.Api.Webhook.{Request}
use linkplease_tech_assignme.TestWebhook.{Args, run_script, run_script-verifies}
use linkplease_tech_assignme.Workers.DmWorker.{to_end, stopped_before_reply}
use linkplease_tech_assignme.Workers.DmWorker.Steps.{state, ByOthers}
use linkplease_tech_assignme.Workers.Start.{Clock, lifespan_start}
use linkplease_tech_assignme.Workers.Loops.{DmTurn, iteration, cut, claim_failed, dm_loop}
use linkplease_tech_assignme.System.History.{no_more}
use linkplease_tech_assignme.System.Workers.{Ran, dm_worker_refines}
use linkplease_tech_assignme.Tests.Endpoints.{lowered, signed_settings}
use linkplease_tech_assignme.Tests.Histories.{signed_budgets}
use linkplease_tech_assignme.Tests.Lives.{busy, busy_reached}
use linkplease_tech_assignme.Tests.Sessions.{surroundings, limiter}

abbrev clock : Clock
clock = record { recovered_at = 90; stamped_at = 91; warmed_at = 92; log_read = true }

abbrev nothing : Db → Db
nothing db = db

abbrev turns : List ((Db → Db) × DmTurn)
turns =
    (nothing, iteration surroundings to_end)
    ∷ (nothing, claim_failed)
    ∷ (nothing, cut surroundings stopped_before_reply)
    ∷ []

rests : (db : Db) → Ran signed_settings lowered db db
rests db = no_more (state db none)

others : ByOthers signed_settings lowered nothing
others id db = no_more (state db (some id))

dm_worker_refines_example :
    Ran signed_settings lowered busy.db
      (dm_loop signed_settings turns
        (limiter, (lifespan_start signed_settings clock busy.db).1)).state.1
dm_worker_refines_example =
    dm_worker_refines signed_settings lowered signed_budgets clock turns limiter busy.db
      ((rests, (others, rests)), ((rests, tt), ((rests, (others, rests)), tt))) busy_reached

-- A digest that only tells apart empty bodies and others.
abbrev digest : String → List ℕ → String
digest secret [] = "00"
digest secret (c ∷ cs) = "ff"

abbrev args : Args
args = record {
  event_id = none;
  event_type = "comment.created";
  text = "PRICE please";
  user_id = "usr_3b91fe";
  username = "arjun.shoots";
  comment_id = "cmt_9f2a7c";
  repeat = 2;
  unsigned = false;
}

abbrev dumps : WebhookEvent → List ℕ
dumps payload = codes payload.event_id

abbrev name : ℕ → String
name _ = "0123456789ab"

abbrev receiver : Settings
receiver = strip_fields signed_settings

hexadecimal : (body : List ℕ) → all_hex (codes (digest (signing_secret receiver) body)) ≡ true
hexadecimal [] = refl
hexadecimal (c ∷ cs) = refl

given : truthy (some (signing_secret receiver)) ≡ true
unfolding signing_secret strip_fields strip
given = refl

no_blanks : strip "key" ≡ "key"
unfolding strip
no_blanks = refl

nothing_set : strip "" ≡ ""
unfolding strip
nothing_set = refl

run_script-verifies_example :
    All
      (λ (r : Request).
        verify_signature lowered digest (signing_secret receiver) r.raw_body r.signature
        ≡ some true)
      (run_script lowered digest dumps name name name (some "") (some "key") args)
run_script-verifies_example =
    run_script-verifies lowered digest dumps name name name signed_settings args hexadecimal
      (λ t p. refl) nothing_set no_blanks given refl
