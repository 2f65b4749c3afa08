-- ===== src/Mock/Quota.antt =====
-- scripts/mock_pseudogram.py: its check of the window, and the sends that pass it.
use linkplease_tech_assignme.Base.{
  ℕ, ◌+◌, ◌≤◌, ◌≡◌, refl, ◌∙◌, String, Option, none, some, List, [], ◌∷◌, ◌++◌, arith, Bool-cases,
  inl, inr, length, leb, ltb, count_where-append, All, All-append, All-map, All-select_where,
}
use linkplease_tech_assignme.Models.{Time}
use linkplease_tech_assignme.Pseudogram.{JsonObject}
use linkplease_tech_assignme.RateLimiter.{Limiter}
use linkplease_tech_assignme.RateLimiter.Window.{in_window, sends}
use linkplease_tech_assignme.RateLimiter.History.{History, window_limit}
use linkplease_tech_assignme.Mock.{
  Mock, Dm, Draws, Send, Call, send_call, get_call, empty_mock, window_seconds, max_sends, recent,
  admitted, limited, replay_or, known_dm, given_key, send_dm, found_dm, find_dm, get_dm, handle,
  handle_all,
}

-- The times of the sends among the calls.
abbrev pub send_times : List Call → List Time
send_times [] = []
send_times (send_call now draws send ∷ calls) = now ∷ send_times calls
send_times (get_call now dm_id ∷ calls) = send_times calls

abbrev call_time : Call → Time
call_time (send_call now draws send) = now
call_time (get_call now dm_id) = now

-- The calls come in the order of their times, from `last` on.
abbrev pub InOrder : Time → List Call → Type 0
InOrder last [] = Unit {0}
InOrder last (call ∷ calls) = (last ≤ call_time call) × InOrder (call_time call) calls

-- After the sends `h`, the last at `last`: what the mock keeps of them.
pub record Kept (last : Time) (h : List Time) (m : Mock) : Type 0 where
  pub before : All (λ t. t ≤ last) m.send_times
  pub fewer : (x : Time) → last ≤ x → sends window_seconds x m.send_times ≤ sends window_seconds x h

-- Among times that have passed, the filter keeps those of the window.
length-recent :
    (now : Time) (ts : List Time)
    → All (λ t. t ≤ now) ts
    → length (recent now ts) ≡ sends window_seconds now ts
unfolding recent
length-recent now [] a = refl
length-recent now (t ∷ ts) a = ground (arith, length-recent now ts)

sends-recent-le :
    (now x : Time) (ts : List Time)
    → sends window_seconds x (recent now ts) ≤ sends window_seconds x ts
unfolding recent
sends-recent-le now x [] = omega arith
sends-recent-le now x (t ∷ ts) = ground (arith, sends-recent-le now x ts)

recent-All : (P : Time → Type 0) (now : Time) (ts : List Time) → All P ts → All P (recent now ts)
unfolding recent
recent-All P now ts a =
    All-map (λ t h. h.0) _ (All-select_where _ (λ t. ltb now (t + window_seconds)) ts a)

later-All :
    (last now : Time) (ts : List Time) → last ≤ now → All (λ t. t ≤ last) ts → All (λ t. t ≤ now) ts
later-All last now [] le a = tt
later-All last now (t ∷ ts) le a = (omega (arith, a.0), later-All last now ts le a.1)

sends-append :
    (x now : Time) (h : List Time)
    → sends window_seconds x (h ++ now ∷ [])
      ≡ sends window_seconds x h + sends window_seconds x (now ∷ [])
sends-append x now h = count_where-append (in_window window_seconds x) h (now ∷ [])

module _ (dumps : JsonObject → String) where
  admitted_frame :
      (now : Time) (draws : Draws) (send : Send) (m : Mock)
      → ((admitted dumps now draws send m).1.send_times ≡ m.send_times)
        × ((admitted dumps now draws send m).1.violations ≡ m.violations)
  unfolding admitted
  admitted_frame now draws send m = ground arith

  -- What a send at `now` leaves, where the window has room for it.
  abbrev Passed : Time → List Time → Mock → Mock → Type 0
  Passed now h m m' = (m'.violations ≡ m.violations) × Kept now (h ++ now ∷ []) m'

  limited-Passed :
      (last now : Time) (h : List Time) (draws : Draws) (send : Send) (m : Mock)
      → last ≤ now
      → Kept last h m
      → sends window_seconds now h + 1 ≤ max_sends
      → Passed now h m (limited dumps now draws send m).1
  unfolding limited
  limited-Passed last now h draws send m le k room =
      elim (Bool-cases (leb max_sends (length (recent now m.send_times)))) [
        | inl full ↦ absurd (
            ground (
              arith,
              length-recent now m.send_times (later-All last now m.send_times le k.before),
              k.fewer now le,
            ))
        | inr free ↦
            let kept = record m { send_times = recent now m.send_times ++ now ∷ [] } in
            let (same, violations) = admitted_frame now draws send kept in
            rw free (
              violations,
              record {
                before = rw same (
                    All-append (λ t. t ≤ now) (recent now m.send_times) (now ∷ [])
                      (recent-All (λ t. t ≤ now) now m.send_times
                        (later-All last now m.send_times le k.before))
                      (omega arith, tt));
                fewer = λ x later. rw same (
                    omega (
                      arith,
                      sends-append x now (recent now m.send_times),
                      sends-append x now h,
                      sends-recent-le now x m.send_times,
                      k.fewer x (omega arith),
                    ));
              },
            )
      ]

  send-Passed :
      (last now : Time) (h : List Time) (draws : Draws) (send : Send) (m : Mock) (x : Option String)
      → last ≤ now
      → Kept last h m
      → sends window_seconds now h + 1 ≤ max_sends
      → Passed now h m (replay_or dumps now draws send m x).1
  unfolding replay_or
  send-Passed last now h draws send m none le k room =
      limited-Passed last now h draws send m le k room
  send-Passed last now h draws send m (some d) le k room = (
    refl,
    record {
      before = later-All last now m.send_times le k.before;
      fewer = λ x later. omega (arith, sends-append x now h, k.fewer x (omega arith));
    },
  )

  found_frame :
      (now : Time) (dm_id : String) (m : Mock) (x : Option Dm)
      → ((found_dm dumps now dm_id m x).1.send_times ≡ m.send_times)
        × ((found_dm dumps now dm_id m x).1.violations ≡ m.violations)
  unfolding found_dm
  found_frame now dm_id m none = (refl, refl)
  found_frame now dm_id m (some d) = (refl, refl)

  get-Kept :
      (last now : Time) (h : List Time) (m m' : Mock)
      → last ≤ now
      → m'.send_times ≡ m.send_times
      → Kept last h m
      → Kept now h m'
  get-Kept last now h m m' le e k = record {
    before = rw e (later-All last now m.send_times le k.before);
    fewer = λ x later. rw e (k.fewer x (omega arith));
  }

  pub handle_all-violations :
      (calls : List Call) (last : Time) (h : List Time) (m : Mock)
      → Kept last h m
      → InOrder last calls
      → ((x : Time)
          → sends window_seconds x h + sends window_seconds x (send_times calls) ≤ max_sends)
      → (handle_all dumps calls m).violations ≡ m.violations
  unfolding handle_all handle send_dm get_dm
  handle_all-violations [] last h m k o b = refl
  handle_all-violations (send_call now draws send ∷ calls) last h m k o b =
      let (same, kept) =
        send-Passed last now h draws send m (known_dm dumps (given_key send.idempotency_key) m) o.0
          k (ground (arith, b now)) in
      handle_all-violations calls now (h ++ now ∷ []) _ kept o.1
        (λ x. omega (arith, sends-append x now h, b x))
      ∙ same
  handle_all-violations (get_call now dm_id ∷ calls) last h m k o b =
      let (times, same) = found_frame now dm_id m (find_dm dm_id m.dms) in
      handle_all-violations calls now h _ (get-Kept last now h m _ o.0 times k) o.1 b ∙ same

sends-narrow : (w w' : ℕ) (x : Time) (h : List Time) → w ≤ w' → sends w x h ≤ sends w' x h
sends-narrow w w' x [] le = omega arith
sends-narrow w w' x (t ∷ ts) le = ground (arith, sends-narrow w w' x ts le)

-- Where the sends reach the mock at the times at which a limiter granted them, and the limiter allows no
-- more than 10 calls in no less than 60 seconds, the mock sees no violation of its limit, whatever is
-- sent and asked in between.
pub limiter_meets_quota :
    (dumps : JsonObject → String) (l0 l : Limiter) (start now : Time) (h : List Time)
    (calls : List Call)
    → l0.timestamps ≡ []
    → History l0 [] start now h l
    → l.max_calls ≤ max_sends
    → window_seconds ≤ l.window_seconds
    → send_times calls ≡ h
    → InOrder 0 calls
    → (handle_all dumps calls empty_mock).violations ≡ []
limiter_meets_quota dumps l0 l start now h calls e p few wide same o =
    handle_all-violations dumps calls 0 [] empty_mock
      (record { before = tt; fewer = λ x le. omega arith }) o
      (λ x. rw same (
        omega (
          arith,
          sends-narrow window_seconds l.window_seconds x h wide,
          window_limit l0 start now x h l e p,
        )))
