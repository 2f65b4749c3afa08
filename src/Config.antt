-- ===== src/Config.antt =====
-- app/config.py: the settings. Floats of seconds are whole microseconds, which is what `timedelta`
-- keeps of them; the jitter ratio is in millionths.
use linkplease_tech_assignme.Base.{
  ℕ, ◌*◌, Bool, true, false, String, some, truthy, if◌then◌else◌, strip,
}

abbrev pub second : ℕ
second = 1000000

pub record Settings : Type 0 where
  pub pseudogram_base_url : String
  pub pseudogram_api_key : String
  pub pseudogram_timeout_seconds : ℕ
  pub database_url : String
  pub verify_webhook_signature : Bool
  pub webhook_signing_secret : String
  pub max_webhook_body_bytes : ℕ
  pub max_dm_attempts : ℕ
  pub max_delivery_attempts : ℕ
  pub retry_base_seconds : ℕ
  pub retry_jitter_ratio : ℕ
  pub retry_max_backoff_seconds : ℕ
  pub auth_error_pause_seconds : ℕ
  pub enable_workers : Bool
  pub worker_poll_interval_seconds : ℕ
  pub event_poll_interval_seconds : ℕ
  pub delivery_poll_interval_seconds : ℕ
  pub sending_stale_seconds : ℕ
  pub send_rate_limit_max_calls : ℕ
  pub send_rate_limit_window_seconds : ℕ
  pub send_rate_limit_safety_seconds : ℕ
  pub count_duplicate_events_as_blocked : Bool
  pub log_level : String

-- The values with no environment variable set.
abbrev pub default_settings : Settings
default_settings = record {
  pseudogram_base_url = "https://pseudogram-api.onrender.com";
  pseudogram_api_key = "";
  pseudogram_timeout_seconds = 15 * second;
  database_url = "sqlite:///./linkplease.db";
  verify_webhook_signature = true;
  webhook_signing_secret = "";
  max_webhook_body_bytes = 65536;
  max_dm_attempts = 5;
  max_delivery_attempts = 5;
  retry_base_seconds = 1 * second;
  retry_jitter_ratio = 250000;
  retry_max_backoff_seconds = 300 * second;
  auth_error_pause_seconds = 60 * second;
  enable_workers = true;
  worker_poll_interval_seconds = 1 * second;
  event_poll_interval_seconds = 200000;
  delivery_poll_interval_seconds = 5 * second;
  sending_stale_seconds = 120 * second;
  send_rate_limit_max_calls = 10;
  send_rate_limit_window_seconds = 60 * second;
  send_rate_limit_safety_seconds = 500000;
  count_duplicate_events_as_blocked = false;
  log_level = "INFO";
}

-- `webhook_signing_secret or pseudogram_api_key`
unfoldable pub signing_secret : Settings → String
signing_secret s =
    if truthy (some s.webhook_signing_secret)
    then s.webhook_signing_secret
    else s.pseudogram_api_key

-- `_strip`, the validator of four of the fields.
unfoldable pub strip_fields : Settings → Settings
unfolding strip
strip_fields s = record s {
  pseudogram_api_key = strip s.pseudogram_api_key;
  webhook_signing_secret = strip s.webhook_signing_secret;
  pseudogram_base_url = strip s.pseudogram_base_url;
  database_url = strip s.database_url;
}
