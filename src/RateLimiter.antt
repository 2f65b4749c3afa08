-- ===== src/RateLimiter.antt =====
-- app/services/rate_limiter.py: the rolling window of sends. The clock and the
-- sleep are outside: the loop of `acquire` reads the clock first at `now`, and after a sleep at the
-- time slept for or later, by `late`: a clock that goes back, as `time.time` may, is left out.
pub mod Window
pub mod Waiting
pub mod History
use linkplease_tech_assignme.Base.{
  ℕ, zero, suc, ◌+◌, ◌-◌, ◌≤◌, Bool, true, false, Option, none, some, List, [], ◌∷◌, ◌++◌, leb, ltb,
  not, length, if◌then◌else◌, select_where, order_by, map, max,
}
use linkplease_tech_assignme.Models.{Db, Time, SendAttemptLog}

-- The store is the table `send_attempt_log`, or there is none.
pub record Limiter : Type 0 where
  pub max_calls : ℕ
  pub window_seconds : ℕ
  pub safety_seconds : ℕ
  pub has_store : Bool
  pub timestamps : List Time

-- `load_recent`: `ts >= since_ts`, sorted. The cutoff is `clock - window`, which may be negative.
unfoldable pub load_recent : Time → ℕ → Db → List Time
load_recent now window db = order_by leb (
    map (λ (r : SendAttemptLog). r.ts)
      (select_where (λ r. leb now (r.ts + window)) db.send_attempt_log))

unfoldable pub record_attempt : Time → Db → Db
record_attempt ts db = record db {
  send_attempt_log = db.send_attempt_log ++ record { id = db.next_attempt_id; ts = ts } ∷ [];
  next_attempt_id = suc db.next_attempt_id;
}

-- `prune`: DELETE … WHERE ts < before_ts
unfoldable pub prune : Time → ℕ → Db → Db
prune now window db = record db {
  send_attempt_log = select_where (λ r. not (ltb (r.ts + window) now)) db.send_attempt_log;
}

-- The loop of `_trim`: `timestamps[0] <= now - window_seconds`.
pub trim_list : Time → ℕ → List Time → List Time
trim_list now window [] = []
trim_list now window (t ∷ ts) = if leb (t + window) now then trim_list now window ts else t ∷ ts

pub trim : Time → Limiter → Limiter
unfolding trim_list
trim now l = record l { timestamps = trim_list now l.window_seconds l.timestamps }

pub seed : Time → List Time → Limiter → Limiter
unfolding trim
seed now timestamps l = trim now (record l { timestamps = order_by leb timestamps })

-- `ok` says whether the database answered: a failure is logged, and the limiter stays as it was.
unfoldable pub warm_start : Bool → Time → Limiter → Db → Limiter × Db
unfolding seed
warm_start ok now l db =
    if l.has_store
    then (if ok
        then (seed now (load_recent now l.window_seconds db) l, prune now l.window_seconds db)
        else (l, db))
    else (l, db)

pub available_now : Time → Limiter → ℕ
unfolding trim
available_now now l = l.max_calls - length (trim now l).timestamps

-- `_persist`, which also only logs a failure.
unfoldable pub persist : Bool → Time → Limiter → Db → Db
persist ok ts l db = if l.has_store then (if ok then record_attempt ts db else db) else db

-- One round of the loop of `acquire`: a slot, or the time to sleep for.
pub data Round : Type 0 where
  granted : Limiter → Round
  wait : ℕ → Limiter → Round
  index_error : Round

abbrev hundredth : ℕ
hundredth = 10000

wait_round : Time → Limiter → List Time → Round
wait_round now l [] = index_error
wait_round now l (t ∷ ts) = wait (max (t + l.window_seconds + l.safety_seconds - now) hundredth) l

round_from : Time → Limiter → Round
unfolding wait_round
round_from now l =
    if ltb (length l.timestamps) l.max_calls
    then granted (record l { timestamps = l.timestamps ++ now ∷ [] })
    else wait_round now l l.timestamps

pub acquire_round : Time → Limiter → Round
unfolding round_from trim
acquire_round now l = round_from now (trim now l)

-- What `acquire` ends in: the time of the grant and the limiter then, an `IndexError`, or fuel that
-- ran out.
pub data Acquired : Type 0 where
  got : Time → Limiter → Acquired
  raised : Acquired
  out_of_fuel : Acquired

-- `late i` is how much later than asked the clock stands after the sleep that leaves fuel `i`.
unfoldable pub acquire : (fuel : ℕ) → (ℕ → ℕ) → Time → Limiter → Acquired
unfolding acquire_round
acquire zero late now l = out_of_fuel
acquire (suc fuel) late now l = elim (acquire_round now l) [
  | granted l' ↦ got now l'
  | wait d l' ↦ acquire fuel late (now + d + late fuel) l'
  | index_error ↦ raised
]
