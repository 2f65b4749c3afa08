-- ===== src/RateLimiter/Waiting.antt =====
-- app/services/rate_limiter.py, acquire: the rounds of its loop.
use linkplease_tech_assignme.Base.{
  ℕ, zero, suc, ◌+◌, ◌-◌, ◌≤◌, ◌<◌, ◌≡◌, refl, false, List, [], ◌∷◌, arith, ltb, length, Bool-cases,
  inl, inr, max, ltb→lt, ap, ◌++◌,
}
use linkplease_tech_assignme.Models.{Time}
use linkplease_tech_assignme.RateLimiter.{
  Limiter, granted, wait, Acquired, got, acquire, acquire_round, round_from, wait_round, trim,
  trim_list,
}

length-trim-le :
    (now : Time) (window : ℕ) (ts : List Time) → length (trim_list now window ts) ≤ length ts
unfolding trim_list
length-trim-le now window [] = omega arith
length-trim-le now window (t ∷ ts) = ground (arith, length-trim-le now window ts)

trim_twice :
    (now : Time) (window : ℕ) (t : Time) (ts : List Time)
    → t + window ≤ now
    → length (trim_list now window (t ∷ ts)) ≤ length ts
unfolding trim_list
trim_twice now window t ts h = ground (arith, length-trim-le now window ts)

-- A grant at some time.
abbrev pub Grants : Acquired → Type 0
Grants a = (t : Time) × (l' : Limiter) × (a ≡ got t l')

acquire-granted :
    (fuel : ℕ) (late : ℕ → ℕ) (now : Time) (l m : Limiter)
    → acquire_round now l ≡ granted m
    → acquire (suc fuel) late now l ≡ got now m
unfolding acquire
acquire-granted fuel late now l m e = rw (e, acquire)

acquire-wait :
    (fuel : ℕ) (late : ℕ → ℕ) (now : Time) (l m : Limiter) (d : ℕ)
    → acquire_round now l ≡ wait d m
    → acquire (suc fuel) late now l ≡ acquire fuel late (now + d + late fuel) m
unfolding acquire
acquire-wait fuel late now l m d e = rw (e, acquire)

round_of_room :
    (now : Time) (l : Limiter)
    → length l.timestamps < l.max_calls
    → round_from now l ≡ granted (record l { timestamps = l.timestamps ++ now ∷ [] })
unfolding round_from
round_of_room now l h = ground arith

round_of_full :
    (now : Time) (l : Limiter) (t : Time) (ts : List Time)
    → l.timestamps ≡ t ∷ ts
    → ltb (length (t ∷ ts)) l.max_calls ≡ false
    → round_from now l ≡ wait (max (t + l.window_seconds + l.safety_seconds - now) 10000) l
unfolding round_from wait_round
round_of_full now l t ts e f = rw (e, round_from) (rw f)

room-Grants :
    (fuel : ℕ) (late : ℕ → ℕ) (now : Time) (l : Limiter)
    → length (trim_list now l.window_seconds l.timestamps) < l.max_calls
    → Grants (acquire (suc fuel) late now l)
unfolding acquire_round
room-Grants fuel late now l h =
    (now, _, acquire-granted fuel late now l _ (round_of_room now (trim now l) h))

full_waits :
    (fuel : ℕ) (late : ℕ → ℕ) (now : Time) (l : Limiter) (t : Time) (ts : List Time)
    → trim_list now l.window_seconds l.timestamps ≡ t ∷ ts
    → ltb (length (t ∷ ts)) l.max_calls ≡ false
    → acquire (suc fuel) late now l
      ≡ acquire fuel late
          (now + max (t + l.window_seconds + l.safety_seconds - now) 10000 + late fuel)
          (trim now l)
unfolding acquire_round
full_waits fuel late now l t ts e f =
    acquire-wait fuel late now l (trim now l) _ (round_of_full now (trim now l) t ts e f)

acquire_from :
    (fuel : ℕ) (late : ℕ → ℕ) (now : Time) (l : Limiter) (ts : List Time)
    → 0 < l.max_calls
    → trim_list now l.window_seconds l.timestamps ≡ ts
    → length ts < fuel
    → Grants (acquire fuel late now l)
unfolding trim
acquire_from zero late now l ts m e h = absurd (omega arith)
acquire_from (suc fuel) late now l [] m e h = room-Grants fuel late now l (rw e m)
acquire_from (suc fuel) late now l (t ∷ ts) m e h =
    elim (Bool-cases (ltb (length (t ∷ ts)) l.max_calls)) [
      | inl room ↦ room-Grants fuel late now l (rw e (ltb→lt _ _ room))
      | inr full ↦
          let next = now + max (t + l.window_seconds + l.safety_seconds - now) 10000 + late fuel in
          rw (full_waits fuel late now l t ts e full) (
            acquire_from fuel late next (trim now l) (trim_list next l.window_seconds (t ∷ ts)) m
              (ap (trim_list next l.window_seconds) e)
              (omega (arith, trim_twice next l.window_seconds t ts (omega arith))))
    ]

-- Where one call or more is allowed, `acquire` gets its slot: one round for each remembered grant and
-- one more are enough, however late the sleeps return.
pub acquire-Grants :
    (late : ℕ → ℕ) (now : Time) (l : Limiter)
    → 0 < l.max_calls
    → Grants (acquire (length l.timestamps + 1) late now l)
acquire-Grants late now l m =
    acquire_from (length l.timestamps + 1) late now l _ m refl
      (omega (arith, length-trim-le now l.window_seconds l.timestamps))
