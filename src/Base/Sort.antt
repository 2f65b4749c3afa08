-- ===== src/Base/Sort.antt =====
-- ORDER BY: insertion sort by a Boolean order, where rows that tie keep their order.
use mathlib.Core.Path.{◌≡◌, refl}
use mathlib.Core.Logic.{inl, inr}
use mathlib.Core.Bool.{Bool, true, false}
use mathlib.Core.List.{List, [], ◌∷◌}
use native.Mathlib.Omega.{arith}
use Prim.Native.Nat.{suc}
use linkplease_tech_assignme.Base.Tests.{if◌then◌else◌, Bool-cases}
use linkplease_tech_assignme.Base.Lists.{All, length, count_where}

module _ {ℓ} {A : Type ℓ} (le : A → A → Bool) where
  abbrev pub insert_by : A → List A → List A
  insert_by x [] = x ∷ []
  insert_by x (y ∷ ys) = if le x y then x ∷ (y ∷ ys) else y ∷ insert_by x ys

  abbrev pub order_by : List A → List A
  order_by [] = []
  order_by (x ∷ xs) = insert_by x (order_by xs)

  -- Each row stands before the later ones.
  abbrev pub IsOrdered : List A → Type ℓ
  IsOrdered [] = Unit
  IsOrdered (x ∷ xs) = All (λ y. le x y ≡ true) xs × IsOrdered xs

  All-insert_by {κ} :
      (P : A → Type κ) (x : A) (xs : List A) → P x → All P xs → All P (insert_by x xs)
  All-insert_by P x [] p h = (p, tt)
  All-insert_by P x (y ∷ ys) p h = elim (Bool-cases (le x y)) [
    | inl e ↦ rw e (p, h)
    | inr e ↦ rw e (h.0, All-insert_by P x ys p h.1)
  ]

  pub All-order_by {κ} : (P : A → Type κ) (xs : List A) → All P xs → All P (order_by xs)
  All-order_by P [] h = tt
  All-order_by P (x ∷ xs) h = All-insert_by P x (order_by xs) h.0 (All-order_by P xs h.1)

  insert_by-All {κ} :
      (P : A → Type κ) (x : A) (xs : List A) → All P (insert_by x xs) → P x × All P xs
  insert_by-All P x [] h = h
  insert_by-All P x (y ∷ ys) h = elim (Bool-cases (le x y)) [
    | inl e ↦ rw e at h
    | inr e ↦
        let h' : P y × All P (insert_by x ys) = rw e at h in
        let r = insert_by-All P x ys h'.1 in (r.0, (h'.0, r.1))
  ]

  -- No row is lost: what holds of every sorted row holds of every row.
  pub order_by-All {κ} : (P : A → Type κ) (xs : List A) → All P (order_by xs) → All P xs
  order_by-All P [] h = tt
  order_by-All P (x ∷ xs) h =
      let r = insert_by-All P x (order_by xs) h in (r.0, order_by-All P xs r.1)

  count-insert_by :
      (p : A → Bool) (x : A) (xs : List A) → count_where p (insert_by x xs) ≡ count_where p (x ∷ xs)
  count-insert_by p x [] = refl
  count-insert_by p x (y ∷ ys) = elim (Bool-cases (le x y)) [
    | inl e ↦ rw e
    | inr e ↦ rw e (omega (arith, count-insert_by p x ys))
  ]

  pub count-order_by : (p : A → Bool) (xs : List A) → count_where p (order_by xs) ≡ count_where p xs
  count-order_by p [] = refl
  count-order_by p (x ∷ xs) = omega (arith, count-order_by p xs, count-insert_by p x (order_by xs))

  length-insert_by : (x : A) (xs : List A) → length (insert_by x xs) ≡ suc (length xs)
  length-insert_by x [] = refl
  length-insert_by x (y ∷ ys) = ground (arith, length-insert_by x ys)

  pub length-order_by : (xs : List A) → length (order_by xs) ≡ length xs
  length-order_by [] = refl
  length-order_by (x ∷ xs) = omega (arith, length-order_by xs, length-insert_by x (order_by xs))

module _ {ℓ} {A : Type ℓ} (le : A → A → Bool) (total : (x y : A) → le x y ≡ false → le y x ≡ true)
    (trans : (x y z : A) → le x y ≡ true → le y z ≡ true → le x z ≡ true) where
  below-All :
      (x y : A) (ys : List A)
      → le x y ≡ true
      → All (λ z. le y z ≡ true) ys
      → All (λ z. le x z ≡ true) ys
  below-All x y [] h a = tt
  below-All x y (z ∷ zs) h a = (trans x y z h a.0, below-All x y zs h a.1)

  insert_by-IsOrdered : (x : A) (xs : List A) → IsOrdered le xs → IsOrdered le (insert_by le x xs)
  insert_by-IsOrdered x [] o = (tt, tt)
  insert_by-IsOrdered x (y ∷ ys) o = elim (Bool-cases (le x y)) [
    | inl e ↦ rw e ((e, below-All x y ys e o.0), o)
    | inr e ↦
        rw e (
          All-insert_by le (λ z. le y z ≡ true) x ys (total x y e) o.0,
          insert_by-IsOrdered x ys o.1,
        )
  ]

  pub order_by-IsOrdered : (xs : List A) → IsOrdered le (order_by le xs)
  order_by-IsOrdered [] = tt
  order_by-IsOrdered (x ∷ xs) = insert_by-IsOrdered x (order_by le xs) (order_by-IsOrdered xs)
