-- ===== src/Jobs/Backoff.antt =====
-- app/services/jobs.py, backoff_delay: the doubling that its docstring describes.
use linkplease_tech_assignme.Base.{
  ℕ, zero, suc, ◌+◌, ◌*◌, ◌-◌, ◌/◌, ◌^◌, ◌≤◌, ◌<◌, ◌≡◌, refl, arith, min, max, none, some, leb,
  true, false,
}
use native.Mathlib.Nat.{pow-suc}
use linkplease_tech_assignme.Config.{Settings}
use linkplease_tech_assignme.Jobs.{
  random_units, tenth_second, jittered, backoff_base, backoff_jitter, with_jitter, backoff_delay,
}

-- The delay after that many earlier failures: the first one, doubled each time, up to the cap.
abbrev pub doubled : Settings → ℕ → ℕ
doubled s zero = min s.retry_base_seconds s.retry_max_backoff_seconds
doubled s (suc n) = min (2 * doubled s n) s.retry_max_backoff_seconds

doubled_is :
    (s : Settings) (n : ℕ)
    → min (s.retry_base_seconds * 2 ^ n) s.retry_max_backoff_seconds ≡ doubled s n
doubled_is s zero = omega arith
doubled_is s (suc n) = rw (pow-suc 2 n) (omega (arith, doubled_is s n))

-- A draw moves the sum by less than twice the jitter.
draw_le : (jitter draw : ℕ) → draw < random_units → 2 * jitter * draw / random_units ≤ 2 * jitter
draw_le jitter draw h = grind arith

-- A delay that lies within the ratio of the jitter of its mean, and is no less than a tenth of a second.
abbrev pub IsDelay : Settings → ℕ → ℕ → Type 0
IsDelay s mean d =
    (tenth_second ≤ d)
    × (mean - mean * s.retry_jitter_ratio / 1000000 ≤ d)
    × (d ≤ max tenth_second (mean + mean * s.retry_jitter_ratio / 1000000))

jittered-IsDelay :
    (s : Settings) (mean draw : ℕ)
    → draw < random_units
    → IsDelay s mean (jittered mean (mean * s.retry_jitter_ratio / 1000000) draw)
unfolding jittered
jittered-IsDelay s mean draw h =
    ground (arith, draw_le (mean * s.retry_jitter_ratio / 1000000) draw h)

-- Whatever the random draw: after each of the first 1024 failures there is a delay, which is at least a
-- tenth of a second and lies within the ratio of the jitter of its mean; the mean is the base for the
-- first failure, doubles with each further one, and does not pass the cap. From the 1025th failure on
-- `backoff_delay` raises.
pub backoff_delay-IsDelay :
    (s : Settings) (n draw : ℕ)
    → draw < random_units
    → (n < 1024 → (d : ℕ) × (backoff_delay (suc n) s draw ≡ some d) × IsDelay s (doubled s n) d)
      × (1024 ≤ n → backoff_delay (suc n) s draw ≡ none)
unfolding backoff_delay with_jitter backoff_base backoff_jitter
backoff_delay-IsDelay s n draw h =
    let above : suc n - 1 ≡ n = omega arith in
    (
      λ few.
          let fits : leb 1024 n ≡ false = ground arith in
          (
            jittered (doubled s n) (doubled s n * s.retry_jitter_ratio / 1000000) draw,
            rw (above, fits, doubled_is s n) refl,
            jittered-IsDelay s (doubled s n) draw h,
          ),
      λ many. let over : leb 1024 n ≡ true = ground arith in rw (above, over) refl,
    )
