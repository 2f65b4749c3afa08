-- ===== src/Workers/Start.antt =====
-- app/main.py, `lifespan`, and app/workers/manager.py, `__init__` and `start`: what happens before the
-- loops run. The tables exist: `init_db` creates those that are missing.
use linkplease_tech_assignme.Base.{Bool, true, false, Option, none, some, []}
use linkplease_tech_assignme.Config.{Settings}
use linkplease_tech_assignme.Models.{Db, Time}
use linkplease_tech_assignme.Counters.{seed_counters}
use linkplease_tech_assignme.RateLimiter.{Limiter, warm_start}
use linkplease_tech_assignme.Workers.Manager.{recover_state}

-- `WorkerManager(settings).rate_limiter`
abbrev pub new_limiter : Settings → Limiter
new_limiter settings = record {
  max_calls = settings.send_rate_limit_max_calls;
  window_seconds = settings.send_rate_limit_window_seconds;
  safety_seconds = settings.send_rate_limit_safety_seconds;
  has_store = true;
  timestamps = [];
}

-- The times that the start reads, and whether the log of attempts could be read.
pub record Clock : Type 0 where
  pub recovered_at : Time
  pub stamped_at : Time
  pub warmed_at : Time
  pub log_read : Bool

-- `start`, up to the tasks.
unfoldable pub start_manager : Settings → Clock → Db → Limiter × Db
start_manager settings c db =
    warm_start c.log_read c.warmed_at (new_limiter settings)
      (recover_state c.recovered_at c.stamped_at db)

-- Whether the workers are enabled.
unfoldable pub start_if : Bool → Settings → Clock → Db → Option Limiter × Db
unfolding start_manager
start_if true settings c db = let (l, db') = start_manager settings c db in (some l, db')
start_if false settings c db = (none, db)

-- `lifespan`, up to its `yield`: no limiter if the workers are disabled.
unfoldable pub lifespan_start : Settings → Clock → Db → Option Limiter × Db
unfolding start_if
lifespan_start settings c db = start_if settings.enable_workers settings c (seed_counters db)
