-- ===== src/Base/Texts.antt =====
-- What the program uses of Python's `str`: `strip`, `in`, slices and lengths, by code points.
use Prim.Native.Nat.{ℕ, zero, suc, ◌≤◌}
use Prim.Native.Char.{code}
use Prim.Native.String.{String}
use mathlib.Core.Path.{◌≡◌, refl, ap}
use mathlib.Core.Logic.{inl, inr}
use mathlib.Core.Bool.{Bool, true, false, not, ◌&&◌, ◌||◌}
use mathlib.Core.List.{List, [], ◌∷◌, ◌++◌}
use native.Mathlib.Omega.{arith}
use linkplease_tech_assignme.Base.Tests.{if◌then◌else◌, leb, ◌==◌, Bool-cases}

abbrev pub codes : String → List ℕ
codes String.[] = []
codes (String.◌∷◌ c s) = code c ∷ codes s

abbrev pub is_empty : String → Bool
is_empty String.[] = true
is_empty (String.◌∷◌ _ _) = false

abbrev between : ℕ → ℕ → ℕ → Bool
between lo hi c = leb lo c && leb c hi

-- The characters that `str.isspace` accepts.
unfoldable pub is_space : ℕ → Bool
is_space c =
    between 0x09 0x0d c
    || between 0x1c 0x20 c
    || c == 0x85
    || c == 0xa0
    || c == 0x1680
    || between 0x2000 0x200a c
    || between 0x2028 0x2029 c
    || c == 0x202f
    || c == 0x205f
    || c == 0x3000

unfoldable pub lstrip : String → String
unfolding is_space
lstrip String.[] = String.[]
lstrip (String.◌∷◌ c s) = if is_space (code c) then lstrip s else String.◌∷◌ c s

unfoldable pub rstrip : String → String
unfolding is_space
rstrip String.[] = String.[]
rstrip (String.◌∷◌ c s) =
    let rest = rstrip s in
    if is_empty rest && is_space (code c) then String.[] else String.◌∷◌ c rest

unfoldable pub strip : String → String
unfolding lstrip rstrip
strip s = rstrip (lstrip s)

abbrev pub count_chars : String → ℕ
count_chars String.[] = 0
count_chars (String.◌∷◌ _ s) = suc (count_chars s)

-- `s[:n]`
abbrev pub take_chars : ℕ → String → String
take_chars zero s = String.[]
take_chars (suc n) String.[] = String.[]
take_chars (suc n) (String.◌∷◌ c s) = String.◌∷◌ c (take_chars n s)

-- `s[n:]`
abbrev pub drop_chars : ℕ → String → String
drop_chars zero s = s
drop_chars (suc n) String.[] = String.[]
drop_chars (suc n) (String.◌∷◌ c s) = drop_chars n s

-- `s + t`
abbrev pub append_text : String → String → String
append_text String.[] t = t
append_text (String.◌∷◌ c s) t = String.◌∷◌ c (append_text s t)

unfoldable pub is_prefix : List ℕ → List ℕ → Bool
is_prefix [] ys = true
is_prefix (x ∷ xs) [] = false
is_prefix (x ∷ xs) (y ∷ ys) = x == y && is_prefix xs ys

-- `needle in text`
unfoldable pub contains : List ℕ → List ℕ → Bool
unfolding is_prefix
contains xs [] = is_prefix xs []
contains xs (y ∷ ys) = is_prefix xs (y ∷ ys) || contains xs ys

-- `text` is `before`, `needle` and `after`, end to end.
pub record Occurs (needle text : List ℕ) : Type 0 where
  pub before : List ℕ
  pub after : List ℕ
  pub split : text ≡ before ++ (needle ++ after)

is_prefix_sound : (xs ys : List ℕ) → is_prefix xs ys ≡ true → (after : List ℕ) × (ys ≡ xs ++ after)
unfolding is_prefix
is_prefix_sound [] ys h = (ys, refl)
is_prefix_sound (x ∷ xs) [] h = absurd (cc)
is_prefix_sound (x ∷ xs) (y ∷ ys) h =
    let (after, e) = is_prefix_sound xs ys (ground arith) in (after, ground arith)

pub is_prefix_complete : (xs after : List ℕ) → is_prefix xs (xs ++ after) ≡ true
unfolding is_prefix
is_prefix_complete [] after = refl
is_prefix_complete (x ∷ xs) after = ground (arith, is_prefix_complete xs after)

pub contains_sound : (xs ys : List ℕ) → contains xs ys ≡ true → Occurs xs ys
unfolding contains
contains_sound xs [] h =
    let (after, e) = is_prefix_sound xs [] h in record { before = []; after = after; split = e }
contains_sound xs (y ∷ ys) h = elim (Bool-cases (is_prefix xs (y ∷ ys))) [
  | inl e ↦
      let (after, split) = is_prefix_sound xs (y ∷ ys) e in
      record { before = []; after = after; split = split }
  | inr e ↦
      let o = contains_sound xs ys (rw e at h) in
      record { before = y ∷ o.before; after = o.after; split = ap (◌∷◌ y) o.split }
]

contains_at : (before xs after : List ℕ) → contains xs (before ++ (xs ++ after)) ≡ true
unfolding contains
contains_at [] [] [] = refl
contains_at [] [] (y ∷ ys) = refl
contains_at [] (x ∷ xs) after = rw (is_prefix_complete (x ∷ xs) after)
contains_at (b ∷ before) xs after = ground (arith, contains_at before xs after)

pub contains_complete : (xs ys : List ℕ) → Occurs xs ys → contains xs ys ≡ true
contains_complete xs ys o = rw o.split (contains_at o.before xs o.after)

-- The text does not begin with a blank.
abbrev starts_solid : String → Bool
starts_solid String.[] = true
starts_solid (String.◌∷◌ c _) = not (is_space (code c))

lstrip_solid : (s : String) → starts_solid (lstrip s) ≡ true
unfolding lstrip
lstrip_solid String.[] = refl
lstrip_solid (String.◌∷◌ c s) = elim (Bool-cases (is_space (code c))) [
  | inl e ↦ rw e (lstrip_solid s)
  | inr e ↦ rw e (rw e)
]

lstrip_of_solid : (s : String) → starts_solid s ≡ true → lstrip s ≡ s
unfolding lstrip
lstrip_of_solid String.[] h = refl
lstrip_of_solid (String.◌∷◌ c s) h = ground arith

rstrip_solid : (s : String) → starts_solid s ≡ true → starts_solid (rstrip s) ≡ true
unfolding rstrip
rstrip_solid String.[] h = refl
rstrip_solid (String.◌∷◌ c s) h = ground arith

rstrip_idem : (s : String) → rstrip (rstrip s) ≡ rstrip s
unfolding rstrip
rstrip_idem String.[] = refl
rstrip_idem (String.◌∷◌ c s) = ground (arith, rstrip_idem s)

-- Stripping twice is stripping once.
pub strip_idem : (s : String) → strip (strip s) ≡ strip s
unfolding strip
strip_idem s =
    rw (lstrip_of_solid (rstrip (lstrip s)) (rstrip_solid (lstrip s) (lstrip_solid s)))
      (rstrip_idem (lstrip s))

pub length-take_chars-le : (n : ℕ) (s : String) → count_chars (take_chars n s) ≤ n
length-take_chars-le zero s = omega arith
length-take_chars-le (suc n) String.[] = omega arith
length-take_chars-le (suc n) (String.◌∷◌ c s) = omega (arith, length-take_chars-le n s)
