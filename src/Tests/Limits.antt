-- ===== src/Tests/Limits.antt =====
-- Runs of the rate limiter, and of the smaller parts.
use linkplease_tech_assignme.Base.{
  ℕ, ◌+◌, ◌≤◌, ◌≡◌, ◌↔◌, refl, true, String, some, [], ◌∷◌, arith, length, count_where,
}
use linkplease_tech_assignme.Models.{
  Db, Time, JobStatus, job_status_in, pending_job_statuses, empty_db,
}
use linkplease_tech_assignme.RateLimiter.{Limiter, got, acquire, warm_start, load_recent}
use linkplease_tech_assignme.RateLimiter.Window.{sends}
use linkplease_tech_assignme.RateLimiter.Waiting.{Grants, acquire-Grants}
use linkplease_tech_assignme.RateLimiter.History.{
  History, begin, send, window_limit, warm_start-limit, logged,
}
use linkplease_tech_assignme.Jobs.Stats.{compute_stats, compute_stats-counts, count_status}
use linkplease_tech_assignme.IdempotencyKey.{idempotency_key, read_key, read-idempotency_key}
use linkplease_tech_assignme.Pseudogram.{
  SendOutcome, FloatText, JsonBody, Response, classify_response,
}
use linkplease_tech_assignme.Pseudogram.Laws.{CodeFits, classify_response_iff}
use linkplease_tech_assignme.Tests.{jobs_db, accepted_job}

-- One send in each 10 units of time.
abbrev limiter : Limiter
limiter = record {
  max_calls = 1;
  window_seconds = 10;
  safety_seconds = 0;
  has_store = true;
  timestamps = [];
}

abbrev on_time : ℕ → ℕ
on_time _ = 0

first_slot : acquire 1 on_time 3 limiter ≡ got 3 (record limiter { timestamps = 3 ∷ [] })
unfolding acquire
first_slot = refl

-- The second call comes one unit later, sleeps at least 10000, and finds the window free.
second_slot :
    acquire 2 on_time 4 (record limiter { timestamps = 3 ∷ [] })
    ≡ got 10004 (record limiter { timestamps = 10004 ∷ [] })
unfolding acquire
second_slot = refl

history : History limiter [] 0 10004 (3 ∷ 10004 ∷ []) (record limiter { timestamps = 10004 ∷ [] })
history =
    send 2 on_time 4 10004 (record limiter { timestamps = 10004 ∷ [] })
      (send 1 on_time 3 3 (record limiter { timestamps = 3 ∷ [] }) begin (omega arith) first_slot)
      (omega arith) second_slot

acquire-Grants_example : Grants (acquire 2 on_time 4 (record limiter { timestamps = 3 ∷ [] }))
acquire-Grants_example =
    acquire-Grants on_time 4 (record limiter { timestamps = 3 ∷ [] }) (omega arith)

window_limit_example : sends 10 10007 (3 ∷ 10004 ∷ []) ≤ 1
window_limit_example =
    window_limit limiter 0 10004 10007 (3 ∷ 10004 ∷ []) (record limiter { timestamps = 10004 ∷ [] })
      refl history

abbrev log_db : Db
log_db = record empty_db { send_attempt_log = record { id = 1; ts = 95 } ∷ []; next_attempt_id = 2 }

logged_within : (y : Time) → sends 10 y (logged log_db) ≤ 1
logged_within y = ground arith

warm : (warm_start true 100 limiter log_db).0 ≡ record limiter { timestamps = 95 ∷ [] }
unfolding warm_start load_recent
warm = refl

warm-History :
    History
      (warm_start true 100 limiter log_db).0
      (logged log_db)
      100
      10102
      (95 ∷ 10102 ∷ [])
      (record limiter { timestamps = 10102 ∷ [] })
unfolding acquire warm_start load_recent
warm-History =
    send 2 on_time 102 10102 (record limiter { timestamps = 10102 ∷ [] }) begin (omega arith) refl

warm_start-limit_example : sends 10 10103 (95 ∷ 10102 ∷ []) ≤ 1
warm_start-limit_example =
    warm_start-limit limiter log_db 100 10102 10103 (95 ∷ 10102 ∷ [])
      (record limiter { timestamps = 10102 ∷ [] }) refl logged_within warm-History

read-idempotency_key_example :
    read_key (idempotency_key (record accepted_job { send_cycle = 2 })) ≡ (3, 2)
read-idempotency_key_example = read-idempotency_key (record accepted_job { send_cycle = 2 })

abbrev too_many : Response
too_many = record {
  status_code = 429;
  retry_after_header = some "7";
  json = JsonBody.not_json;
  text = "slow down";
}

abbrev no_float : String → FloatText
no_float _ = FloatText.value_error

classify_response_iff_example :
    ((classify_response no_float too_many).outcome ≡ SendOutcome.rate_limited)
    ↔ CodeFits SendOutcome.rate_limited 429
classify_response_iff_example = classify_response_iff no_float too_many SendOutcome.rate_limited

compute_stats-counts_example :
    let stats = compute_stats jobs_db in
    (stats.sent ≡ count_status JobStatus.delivered jobs_db.jobs)
    × (stats.failed ≡ count_status JobStatus.failed jobs_db.jobs)
    × (stats.queued ≡ count_where (λ j. job_status_in j.status pending_job_statuses) jobs_db.jobs)
    × (stats.sent + stats.failed + stats.queued + count_status JobStatus.cancelled jobs_db.jobs
        ≡ length jobs_db.jobs)
compute_stats-counts_example = compute_stats-counts jobs_db
