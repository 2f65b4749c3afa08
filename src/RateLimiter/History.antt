-- ===== src/RateLimiter/History.antt =====
-- app/services/rate_limiter.py: a limiter over its life, with any calls, and restarts.
use linkplease_tech_assignme.Base.{
  ℕ, ◌+◌, ◌≤◌, ◌≡◌, refl, sym, ◌∙◌, true, List, [], ◌∷◌, ◌++◌, map, arith, leb, select_where,
  order_by, count-order_by, Bool,
}
use native.Mathlib.Nat.{le_refl}
use linkplease_tech_assignme.Models.{Db, Time, SendAttemptLog}
use linkplease_tech_assignme.RateLimiter.{
  Limiter, got, acquire, trim, seed, load_recent, warm_start, prune,
}
use linkplease_tech_assignme.RateLimiter.Window.{
  in_window, sends, Remembers, trim-Remembers, acquire-Remembers,
}

-- The grants `h` that a limiter made, from `l0` on with the grants `h0`, up to the time `now`.
-- `look` is a call of `available_now`.
pub data History (l0 : Limiter) (h0 : List Time) (start : Time)
    : Time → List Time → Limiter → Type 0 where
  begin : History l0 h0 start start h0 l0
  send :
      {last : Time} {h : List Time} {l : Limiter} (fuel : ℕ) (late : ℕ → ℕ) (now t : Time)
      (l' : Limiter)
      → History l0 h0 start last h l
      → last ≤ now
      → acquire fuel late now l ≡ got t l'
      → History l0 h0 start t (h ++ t ∷ []) l'
  look :
      {last : Time} {h : List Time} {l : Limiter} (now : Time)
      → History l0 h0 start last h l
      → last ≤ now
      → History l0 h0 start now h (trim now l)

History-Remembers :
    {l0 : Limiter} {h0 : List Time} {start now : Time} {h : List Time} {l : Limiter}
    → Remembers start h0 l0
    → History l0 h0 start now h l
    → Remembers now h l
History-Remembers r begin = r
History-Remembers r (send {last} {h} {l} fuel late now t l' p le e) =
    (acquire-Remembers fuel late last now t h l l' le (History-Remembers r p) e).1
History-Remembers r (look {last} {h} {l} now p le) =
    trim-Remembers last now h l le (History-Remembers r p)

fresh-Remembers : (start : Time) (l : Limiter) → l.timestamps ≡ [] → Remembers start [] l
fresh-Remembers start l e = record { same = λ x _. rw e; limited = λ x. omega arith }

-- Whatever calls a limiter that starts empty gets, on a clock that never goes back, it grants at most
-- `max_calls` sends in any window.
pub window_limit :
    (l0 : Limiter) (start now x : Time) (h : List Time) (l : Limiter)
    → l0.timestamps ≡ []
    → History l0 [] start now h l
    → sends l.window_seconds x h ≤ l.max_calls
window_limit l0 start now x h l e p = (History-Remembers (fresh-Remembers start l0 e) p).limited x

abbrev pub logged : Db → List Time
logged db = map (λ (r : SendAttemptLog). r.ts) db.send_attempt_log

sends-recent :
    (now x : Time) (window : ℕ) (log : List SendAttemptLog)
    → now ≤ x
    → sends window x
        (map (λ (r : SendAttemptLog). r.ts) (select_where (λ r. leb now (r.ts + window)) log))
      ≡ sends window x (map (λ (r : SendAttemptLog). r.ts) log)
sends-recent now x window [] h = refl
sends-recent now x window (r ∷ rs) h = ground (arith, sends-recent now x window rs h)

seed-Remembers :
    (l0 : Limiter) (db : Db) (start : Time)
    → ((y : Time) → sends l0.window_seconds y (logged db) ≤ l0.max_calls)
    → Remembers start
        (logged db)
        (record l0 { timestamps = order_by leb (load_recent start l0.window_seconds db) })
unfolding load_recent
seed-Remembers l0 db start within = record {
  same = λ x le. sym (
      count-order_by leb (in_window l0.window_seconds x) _
      ∙ (count-order_by leb (in_window l0.window_seconds x) _
          ∙ sends-recent start x l0.window_seconds db.send_attempt_log le));
  limited = within;
}

warm_start_seeds :
    (l0 : Limiter) (db : Db) (start : Time)
    → l0.has_store ≡ true
    → (warm_start true start l0 db).0 ≡ seed start (load_recent start l0.window_seconds db) l0
unfolding warm_start
warm_start_seeds l0 db start stored = ground arith

warm_start-Remembers :
    (l0 : Limiter) (db : Db) (start : Time)
    → l0.has_store ≡ true
    → ((y : Time) → sends l0.window_seconds y (logged db) ≤ l0.max_calls)
    → Remembers start (logged db) (warm_start true start l0 db).0
unfolding seed
warm_start-Remembers l0 db start stored within =
    rw (warm_start_seeds l0 db start stored)
      (trim-Remembers start start (logged db) _ (le_refl start) (seed-Remembers l0 db start within))

-- A limiter that starts from the logged sends keeps the limit across the restart: if no window holds
-- more than `max_calls` of the logged sends, none holds more of these and the new grants together.
pub warm_start-limit :
    (l0 : Limiter) (db : Db) (start now x : Time) (h : List Time) (l : Limiter)
    → l0.has_store ≡ true
    → ((y : Time) → sends l0.window_seconds y (logged db) ≤ l0.max_calls)
    → History (warm_start true start l0 db).0 (logged db) start now h l
    → sends l.window_seconds x h ≤ l.max_calls
warm_start-limit l0 db start now x h l stored within p =
    (History-Remembers (warm_start-Remembers l0 db start stored within) p).limited x

-- Starting the limiter writes the log of attempts and nothing else.
pub warm_start_frame :
    (ok : Bool) (now : Time) (l : Limiter) (db : Db)
    → let db' = (warm_start ok now l db).1 in
      db' ≡ record db { send_attempt_log = db'.send_attempt_log }
unfolding warm_start prune
warm_start_frame ok now l db = ground arith
