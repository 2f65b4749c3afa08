-- ===== src/Tests/Headers.antt =====
-- A header with a tag in capitals, a digest in both cases, and blanks around them.
use linkplease_tech_assignme.Base.{
  ℕ, ◌≡◌, ◌↔◌, ◌+◌, refl, Bool, true, false, ◌&&◌, String, some, List, [], ◌∷◌, arith, leb, codes,
  map, is_space, if◌then◌else◌,
}
use native.Mathlib.Omega.{compare-eq, compare-gt}
use Prim.Native.Nat.{Ordering, compare}
use Prim.Native.Char.{Char, char, code, IsScalar}
use linkplease_tech_assignme.Security.{verify_signature}
use linkplease_tech_assignme.Security.Header.{lower_code, all_blank, tagged, verify_signature-Given}

scalar : (n : ℕ) → compare n 55296 ≡ Ordering.lt → IsScalar n
scalar n e = rw e tt

abbrev capital : ℕ → Bool
capital n = leb 65 n && leb n 90

small : (n : ℕ) → capital n ≡ true → compare (n + 32) 55296 ≡ Ordering.lt
small n e = by_order (compare (n + 32) 55296) refl
  where
    by_order : (o : Ordering) → compare (n + 32) 55296 ≡ o → o ≡ Ordering.lt
    by_order Ordering.lt h = refl
    by_order Ordering.eq h = absurd (ground (arith, compare-eq (n + 32) 55296 h))
    by_order Ordering.gt h = absurd (ground (arith, compare-gt (n + 32) 55296 h))

abbrev lowered_if : (n : ℕ) → Char → (b : Bool) → capital n ≡ b → Char
lowered_if n c true e = char (n + 32) (scalar (n + 32) (small n e))
lowered_if n c false e = c

abbrev lower_char : Char → Char
lower_char c = lowered_if (code c) c (capital (code c)) refl

abbrev lower : String → String
lower String.[] = String.[]
lower (String.◌∷◌ c s) = String.◌∷◌ (lower_char c) (lower s)

code-lowered_if :
    (c : Char) (b : Bool) (e : capital (code c) ≡ b)
    → code (lowered_if (code c) c b e) ≡ (if b then code c + 32 else code c)
code-lowered_if c true e = refl
code-lowered_if c false e = refl

codes-lower : (t : String) → codes (lower t) ≡ map lower_code (codes t)
codes-lower String.[] = refl
codes-lower (String.◌∷◌ c t) = rw (code-lowered_if c (capital (code c)) refl, codes-lower t) refl

abbrev digest : String → List ℕ → String
digest secret body = "ab12"

blank_around : all_blank " " ≡ true
unfolding is_space
blank_around = refl

verify_signature-Given_example :
    (verify_signature lower digest "key" (1 ∷ []) (some " SHA256=Ab12 ") ≡ some true)
    ↔ (lower "Ab12" ≡ "ab12")
verify_signature-Given_example =
    verify_signature-Given lower digest (λ t v. codes-lower t) "key" (1 ∷ []) " " "SHA256=" "Ab12"
      " " refl refl blank_around refl refl refl blank_around (tagged "SHA256=" "Ab12" refl)
