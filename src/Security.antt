-- ===== src/Security.antt =====
-- app/security.py. `hmac` is the lower-case hexadecimal HMAC-SHA256 of a body under a secret, and
-- `lower` is `str.lower`.
pub mod Signing
pub mod Header
use linkplease_tech_assignme.Base.{
  ℕ, ◌≡◌, ◌↔◌, refl, sym, ap, Bool, true, false, not, ◌&&◌, ◌||◌, String, Option, none, some, List,
  [], ◌∷◌, arith, ltb, truthy, str_eq, str_eq_iff, if◌then◌else◌, codes, strip, is_prefix,
  drop_chars, Bool-cases, inl, inr, some_eq, not_none, append_text,
}

abbrev prefix : String
prefix = "sha256="

abbrev pub all_ascii : List ℕ → Bool
all_ascii [] = true
all_ascii (c ∷ cs) = ltb c 128 && all_ascii cs

abbrev pub is_ascii : String → Bool
is_ascii s = all_ascii (codes s)

-- `hmac.compare_digest` of two texts. `none` is its `TypeError` for a text that is not ASCII.
compare_digest : String → String → Option Bool
compare_digest a b = if is_ascii a && is_ascii b then some (str_eq a b) else none

module _ (lower : String → String) (hmac : String → List ℕ → String) where
  unfoldable pub compute_signature : String → List ℕ → String
  compute_signature secret raw_body = hmac secret raw_body

  pub signature_header_value : String → List ℕ → String
  unfolding compute_signature
  signature_header_value secret raw_body = append_text prefix (compute_signature secret raw_body)

  without_prefix : String → String
  without_prefix provided =
      if is_prefix (codes prefix) (codes (lower provided)) then drop_chars 7 provided else provided

  -- The digest that a header value gives.
  unfoldable pub provided_digest : String → String
  unfolding without_prefix
  provided_digest header = lower (without_prefix (strip header))

  unfoldable pub verify_signature : String → List ℕ → Option String → Option Bool
  unfolding compute_signature provided_digest compare_digest
  verify_signature secret raw_body none = some false
  verify_signature secret raw_body (some header) =
      if not (truthy (some secret)) || not (truthy (some header))
      then some false
      else compare_digest (compute_signature secret raw_body) (provided_digest header)

  -- Where digests are ASCII, a body passes exactly when there is a secret and the header, stripped, in
  -- lower case and without its prefix, is the digest of the body under that secret.
  pub verify_signature_iff :
      (secret : String) (raw_body : List ℕ) (header : String)
      → is_ascii (compute_signature secret raw_body) ≡ true
      → (verify_signature secret raw_body (some header) ≡ some true) ↔ (
          (truthy (some secret) ≡ true)
          × (truthy (some header) ≡ true)
          × (provided_digest header ≡ compute_signature secret raw_body))
  unfolding verify_signature compare_digest
  verify_signature_iff secret raw_body header a = (to, back)
    where
      to :
          verify_signature secret raw_body (some header) ≡ some true
          → (truthy (some secret) ≡ true)
            × (truthy (some header) ≡ true)
            × (provided_digest header ≡ compute_signature secret raw_body)
      to h = elim (Bool-cases (not (truthy (some secret)) || not (truthy (some header)))) [
        | inl e ↦ absurd (ground arith)
        | inr e ↦ (
          ground arith,
          ground arith,
          elim (Bool-cases (is_ascii (provided_digest header))) [
            | inl p ↦ sym ((str_eq_iff _ _).0 (some_eq (rw (e, a, p) at h)))
            | inr p ↦ absurd (not_none (rw (e, a, p) at h))
          ],
        )
      ]

      back :
          (truthy (some secret) ≡ true)
            × (truthy (some header) ≡ true)
            × (provided_digest header ≡ compute_signature secret raw_body)
          → verify_signature secret raw_body (some header) ≡ some true
      back (s, h, e) =
          rw (s, h, e, a)
            (ap some (
              (str_eq_iff (compute_signature secret raw_body) (compute_signature secret raw_body)).1
                refl))
