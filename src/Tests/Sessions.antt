-- ===== src/Tests/Sessions.antt =====
-- Runs of the workers.
use linkplease_tech_assignme.Base.{◌≡◌, refl, true, false, none, some, [], ◌∷◌, arith, str_eq}
use linkplease_tech_assignme.Config.{Settings, default_settings}
use linkplease_tech_assignme.Models.{DmJob, JobStatus, Db, EventStatus, conflicts}
use linkplease_tech_assignme.Pseudogram.{SendRequest, FloatText, JsonBody, Reply, configured}
use linkplease_tech_assignme.RateLimiter.{Limiter}
use linkplease_tech_assignme.Jobs.{claim_next_job}
use linkplease_tech_assignme.Jobs.Sound.{IsSound, HasBudgets}
use linkplease_tech_assignme.Workers.DmWorker.{Surroundings, to_end, stopped_before_reply, run_once}
use linkplease_tech_assignme.Workers.DmWorker.Release.{is_sending, run_once-lets_go}
use linkplease_tech_assignme.Workers.DmWorker.Sound.{Meanwhile, run_once-IsSound}
use linkplease_tech_assignme.Workers.Manager.{Recovered, recover_state, recover_state-Recovered}
use linkplease_tech_assignme.Reconciliation
use linkplease_tech_assignme.Reconciliation.Laws.{run_once-keeps}
use linkplease_tech_assignme.Tests.{
  waiting_job, accepted_job, comment_created, jobs_db, jobs_db-IsSound,
}

abbrev with_key : Settings
with_key = record default_settings { pseudogram_api_key = "key" }

with_key-IsSound : IsSound with_key jobs_db
with_key-IsSound = record { table = jobs_db-IsSound.table; budgets = ground arith }

abbrev pub limiter : Limiter
limiter = record {
  max_calls = 10;
  window_seconds = 60000000;
  safety_seconds = 500000;
  has_store = true;
  timestamps = [];
}

-- The API answers every send with 202 and an identifier.
abbrev accepts : SendRequest → Reply
accepts _ = Reply.response (record {
  status_code = 202;
  retry_after_header = none;
  json = JsonBody.object (("dm_id", "d9") ∷ []);
  text = "{}";
})

abbrev pub surroundings : Surroundings
surroundings = record {
  now = 10;
  claimed_at = 11;
  asked_at = 12;
  late = λ _. 0;
  logs = true;
  transport = accepts;
  float = λ _. FloatText.value_error;
  draw = 0;
  meanwhile = λ db. db;
  in_pause = λ db. db;
  replied_at = 20;
  released_at = 21;
}

abbrev claimed_job : DmJob
claimed_job = record waiting_job { status = JobStatus.sending; updated_at = 11 }

claimed : (claim_next_job 10 11 jobs_db).0 ≡ some claimed_job
unfolding claim_next_job
claimed = refl

has_key : configured with_key ≡ true
unfolding configured
has_key = refl

run_once-lets_go_example :
    is_sending 2 (run_once with_key surroundings stopped_before_reply limiter jobs_db).db ≡ false
run_once-lets_go_example =
    run_once-lets_go with_key surroundings stopped_before_reply limiter jobs_db claimed_job has_key
      claimed

alone : (job : DmJob) → Meanwhile with_key job.id surroundings.meanwhile
alone job = record { sound = λ db v. v; waits = λ db a. a }

run_once-IsSound_example :
    IsSound with_key (run_once with_key surroundings to_end limiter jobs_db).db
run_once-IsSound_example =
    run_once-IsSound with_key surroundings (λ db v. v) to_end limiter jobs_db alone with_key-IsSound

abbrev pub polling : Reconciliation.Surroundings
polling = record {
  draw = λ _. 0;
  now = λ _. 20;
  transport = λ _. Reply.response (record {
    status_code = 200;
    retry_after_header = none;
    json = JsonBody.object (("status", "failed") ∷ []);
    text = "{}";
  });
  meanwhile = λ _ db. db;
}

key_budgets : HasBudgets with_key
key_budgets = record { sends = omega arith; deliveries = omega arith }

run_once-keeps_example :
    IsSound with_key (Reconciliation.db_after (Reconciliation.run_once with_key polling 50 jobs_db))
run_once-keeps_example =
    run_once-keeps with_key key_budgets polling 50 jobs_db (λ id db v. v) with_key-IsSound

-- The process stopped in the middle of a send and of a batch.
abbrev stopped_db : Db
stopped_db = record jobs_db {
  jobs = claimed_job ∷ accepted_job ∷ [];
  events = record comment_created { status = EventStatus.processing } ∷ [];
}

stopped_db-IsSound : IsSound default_settings stopped_db
unfolding conflicts str_eq
stopped_db-IsSound = record {
  table = record { ascending = ground arith; below = ground arith; slots = (refl, (refl, tt)) };
  budgets = ground arith;
}

recover_state-Recovered_example :
    Recovered default_settings 30 stopped_db (recover_state 30 31 stopped_db)
recover_state-Recovered_example =
    recover_state-Recovered default_settings 30 31 stopped_db stopped_db-IsSound
