-- ===== src/Security/Header.antt =====
-- app/security.py, verify_signature: the header as a caller writes it, a digest with or without its tag
-- and with blanks around them.
use linkplease_tech_assignme.Base.{
  ℕ, suc, ◌+◌, ◌≡◌, ◌↔◌, refl, sym, ap, ◌∙◌, Bool, true, false, ◌&&◌, String, some, List, [], ◌∷◌,
  ◌++◌, arith, leb, ltb, truthy, codes, map, length, strip, lstrip, rstrip, is_space, is_prefix,
  is_prefix_complete, append_text, count_chars, drop_chars, is_empty, if◌then◌else◌, subst,
}
use Prim.Native.Char.{code}
use linkplease_tech_assignme.Security.{
  prefix, is_ascii, compute_signature, provided_digest, without_prefix, verify_signature,
  verify_signature_iff,
}

abbrev pub all_blank : String → Bool
all_blank String.[] = true
all_blank (String.◌∷◌ c s) = is_space (code c) && all_blank s

-- Visible ASCII characters.
abbrev pub all_visible : String → Bool
all_visible String.[] = true
all_visible (String.◌∷◌ c s) = leb 33 (code c) && ltb (code c) 128 && all_visible s

-- `str.lower` on ASCII.
abbrev pub lower_code : ℕ → ℕ
lower_code c = if leb 65 c && leb c 90 then c + 32 else c

visible_solid : (c : ℕ) → leb 33 c ≡ true → ltb c 128 ≡ true → is_space c ≡ false
unfolding is_space
visible_solid c a b = ground arith

and_both : (a b : Bool) → (a && b) ≡ true → (a ≡ true) × (b ≡ true)
and_both a b h = ground arith

lstrip_blank : (b s : String) → all_blank b ≡ true → lstrip (append_text b s) ≡ lstrip s
unfolding lstrip
lstrip_blank String.[] s h = refl
lstrip_blank (String.◌∷◌ c b) s h =
    let (blank, rest) = and_both (is_space (code c)) (all_blank b) h in
    rw blank (lstrip_blank b s rest)

rstrip_blank : (b : String) → all_blank b ≡ true → rstrip b ≡ String.[]
unfolding rstrip
rstrip_blank String.[] h = refl
rstrip_blank (String.◌∷◌ c b) h =
    let (blank, rest) = and_both (is_space (code c)) (all_blank b) h in
    rw (rstrip_blank b rest, blank) refl

rstrip_visible :
    (x b : String) → all_visible x ≡ true → all_blank b ≡ true → rstrip (append_text x b) ≡ x
unfolding rstrip
rstrip_visible String.[] b v h = rstrip_blank b h
rstrip_visible (String.◌∷◌ c x) b v h = ground (arith, rstrip_visible x b, visible_solid (code c))

strip_between :
    (before x after : String)
    → all_blank before ≡ true
    → all_visible x ≡ true
    → all_blank after ≡ true
    → is_empty x ≡ false
    → strip (append_text before (append_text x after)) ≡ x
unfolding strip
strip_between before String.[] after b v a n = absurd (cc)
strip_between before (String.◌∷◌ c x) after b v a n =
    let solid : is_space (code c) ≡ false = visible_solid (code c) (ground arith) (ground arith) in
    rw
      (
        lstrip_blank before (append_text (String.◌∷◌ c x) after) b,
        starts c (append_text x after) solid,
      )
      (rstrip_visible (String.◌∷◌ c x) after v a)
  where
    starts :
        (c : _) (s : String) → is_space (code c) ≡ false → lstrip (String.◌∷◌ c s) ≡ String.◌∷◌ c s
    starts c s e = rw e refl

codes-append : (x y : String) → codes (append_text x y) ≡ codes x ++ codes y
codes-append String.[] y = refl
codes-append (String.◌∷◌ c x) y = ap (◌∷◌ (code c)) (codes-append x y)

map-append : (xs ys : List ℕ) → map lower_code (xs ++ ys) ≡ map lower_code xs ++ map lower_code ys
map-append [] ys = refl
map-append (x ∷ xs) ys = ap (◌∷◌ (lower_code x)) (map-append xs ys)

count_of : (t : String) → length (map lower_code (codes t)) ≡ count_chars t
count_of String.[] = refl
count_of (String.◌∷◌ c t) = ap suc (count_of t)

drop_tag : (t s : String) → drop_chars (count_chars t) (append_text t s) ≡ s
drop_tag String.[] s = refl
drop_tag (String.◌∷◌ c t) s = drop_tag t s

visible-append :
    (x y : String)
    → all_visible x ≡ true
    → all_visible y ≡ true
    → all_visible (append_text x y) ≡ true
visible-append String.[] y a b = b
visible-append (String.◌∷◌ c x) y a b = ground (arith, visible-append x y)

full_truthy : (x : String) → is_empty x ≡ false → truthy (some x) ≡ true
full_truthy String.[] h = absurd (cc)
full_truthy (String.◌∷◌ c x) h = refl

append-full : (x y : String) → is_empty y ≡ false → is_empty (append_text x y) ≡ false
append-full String.[] y h = h
append-full (String.◌∷◌ c x) y h = refl

full-append : (x y : String) → is_empty x ≡ false → is_empty (append_text x y) ≡ false
full-append String.[] y h = absurd (cc)
full-append (String.◌∷◌ c x) y h = refl

-- The tag before the digest: `sha256=` in letters of either case, or none, if the digest does not look
-- like it.
pub data IsTag : String → String → Type 0 where
  tagged : (tag digest : String) → map lower_code (codes tag) ≡ codes prefix → IsTag tag digest
  bare :
      (digest : String)
      → is_prefix (codes prefix) (map lower_code (codes digest)) ≡ false
      → IsTag String.[] digest

drop_tagged :
    (tag given : String)
    → map lower_code (codes tag) ≡ codes prefix
    → drop_chars 7 (append_text tag given) ≡ given
drop_tagged tag given e =
    let seven : count_chars tag ≡ 7 = sym (count_of tag) ∙ ap length e in
    subst (λ n. drop_chars n (append_text tag given) ≡ given) seven (drop_tag tag given)

module _ (lower : String → String) (hmac : String → List ℕ → String)
    (low : (t : String) → all_visible t ≡ true → codes (lower t) ≡ map lower_code (codes t)) where
  without_tag :
      (tag given : String)
      → IsTag tag given
      → all_visible (append_text tag given) ≡ true
      → without_prefix lower hmac (append_text tag given) ≡ given
  unfolding without_prefix
  without_tag tag given (tagged _ _ e) v =
      let begins : is_prefix (codes prefix) (codes (lower (append_text tag given))) ≡ true =
        rw
          (
            low (append_text tag given) v,
            codes-append tag given,
            map-append (codes tag) (codes given),
            e,
          )
          (is_prefix_complete (codes prefix) (map lower_code (codes given))) in
      rw begins (drop_tagged tag given e)
  without_tag _ given (bare _ e) v =
      let other : is_prefix (codes prefix) (codes (lower given)) ≡ false = rw (low given v) e in
      rw other refl

  -- Where `lower` is `str.lower` on visible ASCII texts and digests are ASCII: with a secret, a header of
  -- a digest in visible ASCII characters, after the tag `sha256=` in letters of either case or without
  -- one, and with any blanks around them, passes exactly when its digest in lower case is the digest of
  -- the body under the secret.
  pub verify_signature-Given :
      (secret : String) (raw_body : List ℕ) (before tag given after : String)
      → is_ascii (hmac secret raw_body) ≡ true
      → truthy (some secret) ≡ true
      → all_blank before ≡ true
      → all_visible tag ≡ true
      → all_visible given ≡ true
      → is_empty given ≡ false
      → all_blank after ≡ true
      → IsTag tag given
      → (verify_signature lower hmac secret raw_body
            (some (append_text before (append_text (append_text tag given) after)))
          ≡ some true)
        ↔ (lower given ≡ hmac secret raw_body)
  unfolding provided_digest compute_signature
  verify_signature-Given secret raw_body before tag given after ascii s b v g n a t =
      let x = append_text tag given in
      let header = append_text before (append_text x after) in
      let visible = visible-append tag given v g in
      let full : is_empty x ≡ false = append-full tag given n in
      let normal : provided_digest lower hmac header ≡ lower given =
        rw (strip_between before x after b visible a full, without_tag tag given t visible) refl in
      let there : truthy (some header) ≡ true =
        full_truthy header (append-full before (append_text x after) (full-append x after full)) in
      let told = verify_signature_iff lower hmac secret raw_body header ascii in
      (λ h. sym normal ∙ (told.0 h).2, λ e. told.1 (s, there, normal ∙ e))
