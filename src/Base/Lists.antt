-- ===== src/Base/Lists.antt =====
-- Lists of rows: what SELECT, UPDATE and COUNT with a WHERE clause do to them.
use Prim.Native.Nat.{ℕ, zero, suc, ◌+◌, ◌≤◌}
use mathlib.Core.Path.{◌≡◌, refl, sym, ◌∙◌}
use mathlib.Core.Bool.{Bool, true, false, ◌||◌, false≢true}
use mathlib.Core.Logic.{inl, inr}
use mathlib.Core.Option.{Option, none, some}
use mathlib.Core.List.{List, [], ◌∷◌, ◌++◌}
use native.Mathlib.Omega.{arith}
use Prim.Native.String.{String}
use linkplease_tech_assignme.Base.Tests.{if◌then◌else◌, Bool-cases, str_eq}

module _ {ℓ} {A : Type ℓ} where
  abbrev pub length : List A → ℕ
  length [] = 0
  length (x ∷ xs) = suc (length xs)

  -- `.limit(n)`
  abbrev pub take : ℕ → List A → List A
  take zero xs = []
  take (suc n) [] = []
  take (suc n) (x ∷ xs) = x ∷ take n xs

  -- SELECT … WHERE
  abbrev pub select_where : (A → Bool) → List A → List A
  select_where p [] = []
  select_where p (x ∷ xs) = if p x then x ∷ select_where p xs else select_where p xs

  -- UPDATE … SET … WHERE
  abbrev pub update_where : (A → Bool) → (A → A) → List A → List A
  update_where p f [] = []
  update_where p f (x ∷ xs) = (if p x then f x else x) ∷ update_where p f xs

  -- The row count of such a statement.
  abbrev pub count_where : (A → Bool) → List A → ℕ
  count_where p [] = 0
  count_where p (x ∷ xs) = (if p x then 1 else 0) + count_where p xs

  abbrev pub any_where : (A → Bool) → List A → Bool
  any_where p [] = false
  any_where p (x ∷ xs) = p x || any_where p xs

  -- The first row that fits, if there is one.
  abbrev pub first_where : (A → Bool) → List A → Option A
  first_where p [] = none
  first_where p (x ∷ xs) = if p x then some x else first_where p xs

  -- Every row has the property.
  abbrev pub All {κ} : (A → Type κ) → List A → Type κ
  All P [] = Unit
  All P (x ∷ xs) = P x × All P xs

  pub length-append : (xs ys : List A) → length (xs ++ ys) ≡ length xs + length ys
  length-append [] ys = omega arith
  length-append (x ∷ xs) ys = omega (arith, length-append xs ys)

  pub length-update_where :
      (p : A → Bool) (f : A → A) (xs : List A) → length (update_where p f xs) ≡ length xs
  length-update_where p f [] = refl
  length-update_where p f (x ∷ xs) = omega (arith, length-update_where p f xs)

  pub length-take-le : (n : ℕ) (xs : List A) → length (take n xs) ≤ n
  length-take-le zero xs = omega arith
  length-take-le (suc n) [] = omega arith
  length-take-le (suc n) (x ∷ xs) = omega (arith, length-take-le n xs)

  pub count_where-le : (p : A → Bool) (xs : List A) → count_where p xs ≤ length xs
  count_where-le p [] = omega arith
  count_where-le p (x ∷ xs) = ground (arith, count_where-le p xs)

  pub count_where-append :
      (p : A → Bool) (xs ys : List A)
      → count_where p (xs ++ ys) ≡ count_where p xs + count_where p ys
  count_where-append p [] ys = omega arith
  count_where-append p (x ∷ xs) ys = ground (arith, count_where-append p xs ys)

  pub any_where-append :
      (p : A → Bool) (xs ys : List A) → any_where p (xs ++ ys) ≡ (any_where p xs || any_where p ys)
  any_where-append p [] ys = refl
  any_where-append p (x ∷ xs) ys = ground (arith, any_where-append p xs ys)

  -- A row that fits is counted, and a count of zero leaves none.
  pub count_where-zero :
      (p : A → Bool) (xs : List A) → count_where p xs ≡ 0 → any_where p xs ≡ false
  count_where-zero p [] h = refl
  count_where-zero p (x ∷ xs) h = ground (arith, count_where-zero p xs)

  pub All-append {κ} : (P : A → Type κ) (xs ys : List A) → All P xs → All P ys → All P (xs ++ ys)
  All-append P [] ys h k = k
  All-append P (x ∷ xs) ys h k = (h.0, All-append P xs ys h.1 k)

  pub All-map {κ μ} :
      {P : A → Type κ} {Q : A → Type μ} (f : (x : A) → P x → Q x) (xs : List A)
      → All P xs
      → All Q xs
  All-map f [] h = tt
  All-map f (x ∷ xs) h = (f x h.0, All-map f xs h.1)

  pub All-update_where {κ} :
      (P : A → Type κ) (p : A → Bool) (f : A → A) (xs : List A)
      → ((x : A) → p x ≡ true → P x → P (f x))
      → All P xs
      → All P (update_where p f xs)
  All-update_where P p f [] keep h = tt
  All-update_where P p f (x ∷ xs) keep h = (row (p x) refl, All-update_where P p f xs keep h.1)
    where
      row : (b : Bool) → p x ≡ b → P (if b then f x else x)
      row true e = keep x e h.0
      row false e = h.0

  -- A row that is found fits the test, and has what every row has.
  pub first_where-fits :
      (p : A → Bool) (xs : List A) (x : A) → first_where p xs ≡ some x → p x ≡ true
  first_where-fits p [] x h = cc
  first_where-fits p (y ∷ ys) x h = ground (arith, first_where-fits p ys x)

  pub first_where-All {κ} :
      (P : A → Type κ) (p : A → Bool) (xs : List A) (x : A)
      → All P xs
      → first_where p xs ≡ some x
      → P x
  first_where-All P p [] x a h = absurd (cc)
  first_where-All P p (y ∷ ys) x a h = ground (arith, first_where-All P p ys x a.1)

  pub All-both {κ μ} :
      (P : A → Type κ) (Q : A → Type μ) (xs : List A)
      → All P xs
      → All Q xs
      → All (λ x. P x × Q x) xs
  All-both P Q [] a b = tt
  All-both P Q (x ∷ xs) a b = ((a.0, b.0), All-both P Q xs a.1 b.1)

  pub All-select_where {κ} :
      (P : A → Type κ) (p : A → Bool) (xs : List A)
      → All P xs
      → All (λ x. P x × (p x ≡ true)) (select_where p xs)
  All-select_where P p [] a = tt
  All-select_where P p (x ∷ xs) a = elim (Bool-cases (p x)) [
    | inl e ↦ rw e ((a.0, e), All-select_where P p xs a.1)
    | inr e ↦ rw e (All-select_where P p xs a.1)
  ]

  pub select_where-All {κ} :
      (P : A → Type κ) (p : A → Bool) (xs : List A)
      → All P (select_where p xs)
      → All (λ x. p x ≡ true → P x) xs
  select_where-All P p [] a = tt
  select_where-All P p (x ∷ xs) a = elim (Bool-cases (p x)) [
    | inl e ↦
        let a' : P x × All P (select_where p xs) = rw e at a in
        ((λ _. a'.0), select_where-All P p xs a'.1)
    | inr e ↦
        let a' : All P (select_where p xs) = rw e at a in
        ((λ h. absurd (false≢true (sym e ∙ h))), select_where-All P p xs a')
  ]

-- A set of texts is the list of its members in the order in which they came: `set.add`.
abbrev pub add_text : String → List String → List String
add_text x xs = if any_where (λ y. str_eq y x) xs then xs else xs ++ x ∷ []
