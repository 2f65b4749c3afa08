-- ===== src/Mock.antt =====
-- scripts/mock_pseudogram.py: the local stand-in for the PseudoGram API. A dictionary is the list of its
-- entries in the order of their insertion. The rates are decided by `Draws`, as is the fresh `dm_id`;
-- an answer of the framework is its status code, its Retry-After header and the texts of its JSON
-- object, whose rendering is the parameter `dumps`.
pub mod Replay
pub mod Quota
pub mod Client
pub mod Simulation
use linkplease_tech_assignme.Base.{
  ℕ, zero, suc, ◌+◌, ◌-◌, ◌*◌, ◌/◌, ◌%◌, Bool, true, false, not, ◌&&◌, ◌||◌, String, Option, none,
  some, List, [], ◌∷◌, ◌++◌, ◌==◌, ltb, leb, str_eq, truthy, if◌then◌else◌, length, select_where,
  any_where, update_where, append_text, map,
}
use linkplease_tech_assignme.Config.{second}
use linkplease_tech_assignme.Models.{Time}
use linkplease_tech_assignme.Pseudogram.{JsonObject, JsonBody, object, Response}

abbrev pub window_seconds : ℕ
window_seconds = 60 * second

abbrev pub max_sends : ℕ
max_sends = 10

pub record Dm : Type 0 where
  pub dm_id : String
  pub status : String
  pub recipient_user_id : String
  pub created : Time
  pub will_fail : Bool

-- The globals of the module. An entry of `_violations` is the time that its text names.
pub record Mock : Type 0 where
  pub send_times : List Time
  pub dms : List Dm
  pub by_idempotency : List (List ℕ × String)
  pub violations : List Time

abbrev pub empty_mock : Mock
empty_mock = record { send_times = []; dms = []; by_idempotency = []; violations = [] }

abbrev pub codes_eq : List ℕ → List ℕ → Bool
codes_eq [] [] = true
codes_eq [] (d ∷ ds) = false
codes_eq (c ∷ cs) [] = false
codes_eq (c ∷ cs) (d ∷ ds) = c == d && codes_eq cs ds

-- `_by_idempotency.get(key)`
pub known_key : List ℕ → List (List ℕ × String) → Option String
known_key key [] = none
known_key key ((k, d) ∷ entries) = if codes_eq k key then some d else known_key key entries

-- `_dms.get(dm_id)`
pub find_dm : String → List Dm → Option Dm
find_dm dm_id [] = none
find_dm dm_id (d ∷ ds) = if str_eq d.dm_id dm_id then some d else find_dm dm_id ds

-- `_dms[dm_id] = …`
put_dm : Dm → List Dm → List Dm
put_dm dm ds =
    if any_where (λ (d : Dm). str_eq d.dm_id dm.dm_id) ds
    then update_where (λ (d : Dm). str_eq d.dm_id dm.dm_id) (λ _. dm) ds
    else ds ++ dm ∷ []

-- What the random generators answer to one request: whether each of the two rates is hit, and the
-- identifier.
pub record Draws : Type 0 where
  pub internal_error : Bool
  pub will_fail : Bool
  pub dm_id : String

-- A request: its Idempotency-Key, and the recipient of its body.
pub record Send : Type 0 where
  pub idempotency_key : Option (List ℕ)
  pub recipient_user_id : Option String

abbrev pub digit_text : ℕ → String
digit_text n =
    if n == 0
    then "0"
    else if n == 1
    then "1"
    else if n == 2
    then "2"
    else if n == 3
    then "3"
    else if n == 4
    then "4"
    else if n == 5
    then "5"
    else if n == 6
    then "6"
    else if n == 7
    then "7"
    else if n == 8
    then "8"
    else "9"

-- `str(n)` for the seconds of a Retry-After, at most 61: two digits are enough.
abbrev pub seconds_text : ℕ → String
seconds_text n =
    if ltb n 10 then digit_text n else append_text (digit_text (n / 10)) (digit_text (n % 10))

-- The key of a request, if it has one that is not empty.
pub given_key : Option (List ℕ) → Option (List ℕ)
given_key none = none
given_key (some []) = none
given_key (some (c ∷ cs)) = some (c ∷ cs)

-- The send times that the filter keeps: `t > now - WINDOW_SECONDS`.
pub recent : Time → List Time → List Time
recent now = select_where (λ t. ltb now (t + window_seconds))

-- `int(WINDOW_SECONDS - (now - _send_times[0])) + 1`
retry_after : Time → List Time → ℕ
retry_after now [] = 1
retry_after now (t ∷ ts) = (t + window_seconds - now) / second + 1

record_key : Option (List ℕ) → String → List (List ℕ × String) → List (List ℕ × String)
record_key none dm_id entries = entries
record_key (some key) dm_id entries = entries ++ (key, dm_id) ∷ []

module _ (dumps : JsonObject → String) where
  abbrev answer : ℕ → JsonObject → Response
  answer code body = record {
    status_code = code;
    retry_after_header = none;
    json = object body;
    text = dumps body;
  }

  -- 202 with the identifier; the flag `replayed` of a repeated send is no text.
  abbrev accepted_answer : String → Response
  accepted_answer dm_id = answer 202 (("dm_id", dm_id) ∷ ("status", "queued") ∷ [])

  -- With a slot of the window taken.
  admitted : Time → Draws → Send → Mock → Response × Mock
  unfolding put_dm record_key
  admitted now draws send m = elim send.recipient_user_id [
    | none ↦ (
      answer 400 (("error", "invalid_request") ∷ ("detail", "recipient_user_id is required") ∷ []),
      m,
    )
    | some user ↦
        if not (truthy (some user))
        then (
          answer 400
              (("error", "invalid_request") ∷ ("detail", "recipient_user_id is required") ∷ []),
          m,
        )
        else if draws.internal_error
        then (answer 500 (("error", "internal_error") ∷ []), m)
        else (
          accepted_answer draws.dm_id,
          record m {
            dms =
                put_dm
                  (record {
                    dm_id = draws.dm_id;
                    status = "queued";
                    recipient_user_id = user;
                    created = now;
                    will_fail = draws.will_fail;
                  })
                  m.dms;
            by_idempotency =
                record_key (given_key send.idempotency_key) draws.dm_id m.by_idempotency;
          },
        )
  ]

  -- The check of the window, for a key that is not known.
  limited : Time → Draws → Send → Mock → Response × Mock
  unfolding recent retry_after admitted
  limited now draws send m =
      let times = recent now m.send_times in
      if leb max_sends (length times)
      then (
        record (answer 429 (("error", "rate_limited") ∷ [])) {
          retry_after_header = some (seconds_text (retry_after now times));
        },
        record m { send_times = times; violations = m.violations ++ now ∷ [] },
      )
      else admitted now draws send (record m { send_times = times ++ now ∷ [] })

  -- By what is known of the key.
  replay_or : Time → Draws → Send → Mock → Option String → Response × Mock
  unfolding limited
  replay_or now draws send m none = limited now draws send m
  replay_or now draws send m (some dm_id) = (accepted_answer dm_id, m)

  known_dm : Option (List ℕ) → Mock → Option String
  unfolding known_key
  known_dm none m = none
  known_dm (some key) m = known_key key m.by_idempotency

  unfoldable pub send_dm : Time → Draws → Send → Mock → Response × Mock
  unfolding given_key known_dm replay_or
  send_dm now draws send m =
      replay_or now draws send m (known_dm (given_key send.idempotency_key) m)

  -- `time.time() - record["created"] > 3`
  settled : Time → Dm → Dm
  settled now d =
      if str_eq d.status "queued" && ltb (d.created + 3 * second) now
      then record d { status = if d.will_fail then "failed" else "delivered" }
      else d

  found_dm : Time → String → Mock → Option Dm → Response × Mock
  unfolding settled put_dm
  found_dm now dm_id m none = (answer 404 (("error", "not_found") ∷ []), m)
  found_dm now dm_id m (some d) =
      let d' = settled now d in
      (
        answer 200 (
            ("dm_id", dm_id)
            ∷ ("status", d'.status)
            ∷ ("recipient_user_id", d'.recipient_user_id)
            ∷ []),
        record m { dms = put_dm d' m.dms },
      )

  unfoldable pub get_dm : Time → String → Mock → Response × Mock
  unfolding find_dm found_dm
  get_dm now dm_id m = found_dm now dm_id m (find_dm dm_id m.dms)

-- One request to the mock.
pub data Call : Type 0 where
  send_call : Time → Draws → Send → Call
  get_call : Time → String → Call

module _ (dumps : JsonObject → String) where
  pub handle : Call → Mock → Response × Mock
  unfolding send_dm get_dm
  handle (send_call now draws send) m = send_dm dumps now draws send m
  handle (get_call now dm_id) m = get_dm dumps now dm_id m

  pub handle_all : List Call → Mock → Mock
  unfolding handle
  handle_all [] m = m
  handle_all (call ∷ calls) m = handle_all calls (handle call m).1
