-- ===== src/Security/Signing.antt =====
-- app/security.py: the two sides of a signature, `signature_header_value` and `verify_signature`.
use linkplease_tech_assignme.Base.{
  ℕ, ◌≡◌, refl, Bool, true, false, not, ◌&&◌, ◌||◌, String, some, List, [], ◌∷◌, arith, ltb, leb,
  truthy, codes, strip, lstrip, rstrip, is_space, is_prefix, append_text,
}
use linkplease_tech_assignme.Security.{
  prefix, all_ascii, compute_signature, signature_header_value, provided_digest, without_prefix,
  verify_signature, verify_signature_iff,
}

-- A visible ASCII character that is no capital.
abbrev is_plain : ℕ → Bool
is_plain c = leb 33 c && ltb c 128 && not (leb 65 c && leb c 90)

abbrev pub all_plain : List ℕ → Bool
all_plain [] = true
all_plain (c ∷ cs) = is_plain c && all_plain cs

-- `0` to `9`, and `a` to `f`.
abbrev is_hex : ℕ → Bool
is_hex c = (leb 48 c && leb c 57) || (leb 97 c && leb c 102)

abbrev pub all_hex : List ℕ → Bool
all_hex [] = true
all_hex (c ∷ cs) = is_hex c && all_hex cs

hex_plain : (cs : List ℕ) → all_hex cs ≡ true → all_plain cs ≡ true
hex_plain [] h = refl
hex_plain (c ∷ cs) h = ground (arith, hex_plain cs)

plain_ascii : (cs : List ℕ) → all_plain cs ≡ true → all_ascii cs ≡ true
plain_ascii [] h = refl
plain_ascii (c ∷ cs) h = ground (arith, plain_ascii cs)

plain_solid : (c : ℕ) → is_plain c ≡ true → is_space c ≡ false
unfolding is_space
plain_solid c h = ground arith

lstrip_plain : (s : String) → all_plain (codes s) ≡ true → lstrip s ≡ s
unfolding lstrip
lstrip_plain String.[] h = refl
lstrip_plain (String.◌∷◌ c s) h = ground (arith, plain_solid (Prim.Native.Char.code c))

rstrip_plain : (s : String) → all_plain (codes s) ≡ true → rstrip s ≡ s
unfolding rstrip
rstrip_plain String.[] h = refl
rstrip_plain (String.◌∷◌ c s) h =
    ground (arith, plain_solid (Prim.Native.Char.code c), rstrip_plain s)

strip_plain : (s : String) → all_plain (codes s) ≡ true → strip s ≡ s
unfolding strip
strip_plain s h = rw (lstrip_plain s h) (rstrip_plain s h)

module _ (lower : String → String) (hmac : String → List ℕ → String) where
  -- Where digests are lower-case hexadecimal texts, and `lower` leaves a text without capitals as it
  -- is, a body passes with the header that is made for it, under every secret that is not empty.
  pub signed-verifies :
      (secret : String) (raw_body : List ℕ)
      → all_hex (codes (hmac secret raw_body)) ≡ true
      → ((t : String) → all_plain (codes t) ≡ true → lower t ≡ t)
      → truthy (some secret) ≡ true
      → verify_signature lower hmac secret raw_body
          (some (signature_header_value lower hmac secret raw_body))
        ≡ some true
  unfolding signature_header_value compute_signature provided_digest without_prefix is_prefix
  signed-verifies secret raw_body hex low given =
      let d = hmac secret raw_body in
      let plain : all_plain (codes d) ≡ true = hex_plain (codes d) hex in
      let header = append_text prefix d in
      (verify_signature_iff lower hmac secret raw_body header (plain_ascii (codes d) plain)).1
        (given, refl, rw (strip_plain header plain, low header plain) (low d plain))
