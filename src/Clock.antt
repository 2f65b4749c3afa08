-- ===== src/Clock.antt =====
-- app/clock.py. `datetime.fromisoformat` is the parameter `from_iso`: `none` is its `ValueError`.
use linkplease_tech_assignme.Base.{
  ℕ, ◌+◌, ◌-◌, Bool, false, String, Option, none, some, leb, truthy, if◌then◌else◌, append_text,
  strip, ltb, ◌==◌, ◌||◌,
}
use Prim.Native.Char.{code}
use linkplease_tech_assignme.Models.{Time}

-- The offset of a time zone from UTC.
pub data Offset : Type 0 where
  east west : ℕ → Offset

-- The wall-clock time, in microseconds from `datetime.min`, and the zone if there is one.
pub record Datetime : Type 0 where
  pub local : Time
  pub tzinfo : Option Offset

-- `datetime.max`
abbrev pub latest : Time
latest = 315537897599999999

-- A parsed time, or the `OverflowError` of `astimezone` where the time in UTC lies outside the years
-- 1 to 9999. `parse_iso8601` handles `ValueError` alone.
pub data Parsed : Type 0 where
  parsed : Option Time → Parsed
  overflow : Parsed

in_range : Time → Parsed
in_range t = if leb t latest then parsed (some t) else overflow

unfoldable pub to_naive_utc : Datetime → Parsed
unfolding in_range
to_naive_utc value = elim value.tzinfo [
  | none ↦ parsed (some value.local)
  | some o ↦ elim o [
    | east d ↦ if ltb value.local d then overflow else parsed (some (value.local - d))
    | west d ↦ in_range (value.local + d)
  ]
]

-- `text[:-1] + "+00:00"` where the text ends in "z" or "Z".
abbrev ends_in_z : String → Bool
ends_in_z String.[] = false
ends_in_z (String.◌∷◌ c String.[]) = code c == b'z' || code c == b'Z'
ends_in_z (String.◌∷◌ c (String.◌∷◌ d s)) = ends_in_z (String.◌∷◌ d s)

abbrev all_but_last : String → String
all_but_last String.[] = String.[]
all_but_last (String.◌∷◌ c String.[]) = String.[]
all_but_last (String.◌∷◌ c (String.◌∷◌ d s)) = String.◌∷◌ c (all_but_last (String.◌∷◌ d s))

abbrev with_offset : String → String
with_offset text = if ends_in_z text then append_text (all_but_last text) "+00:00" else text

naive_or_none : Option Datetime → Parsed
unfolding to_naive_utc
naive_or_none none = parsed none
naive_or_none (some d) = to_naive_utc d

unfoldable pub parse_iso8601 : (String → Option Datetime) → Option String → Parsed
unfolding naive_or_none
parse_iso8601 from_iso none = parsed none
parse_iso8601 from_iso (some value) =
    if truthy (some value)
    then naive_or_none (from_iso (with_offset (strip value)))
    else parsed none
