-- ===== src/Prelude/Sorting.antt =====
-- The stable sort of `Array.sort`, and how often a test holds in a list.
use Prim.Native.Nat.{ℕ, suc, ◌+◌}
use mathlib.Core.Path.{◌≡◌, refl, ap, ◌∙◌}
use mathlib.Core.Bool.{Bool, true, false}
use mathlib.Core.Logic.{inl, inr}
use mathlib.Core.List.{List, [], ◌∷◌, ◌++◌}
use native.Mathlib.Omega.{arith}
use rvf_malinois.Prelude.Tests.{if◌then◌else◌, Bool-cases}

module _ {ℓ} {A : Type ℓ} where
  module _ (le : A → A → Bool) where
    -- `le a b` says that `a` need not come after `b`: the comparator's result is not positive.
    abbrev pub insert : A → List A → List A
    insert x [] = x ∷ []
    insert x (y ∷ ys) = if le x y then x ∷ (y ∷ ys) else y ∷ insert x ys

    abbrev pub sort_by : List A → List A
    sort_by [] = []
    sort_by (x ∷ xs) = insert x (sort_by xs)

    -- Each member with the next one.
    abbrev pub InOrder : List A → Type 0
    InOrder [] = Unit
    InOrder (x ∷ []) = Unit
    InOrder (x ∷ (y ∷ ys)) = (le x y ≡ true) × InOrder (y ∷ ys)

    module _ (total : (a b : A) → le a b ≡ false → le b a ≡ true) where
      insert-InOrder_after :
          (x y : A) (ys : List A) → le y x ≡ true → InOrder (y ∷ ys) → InOrder (y ∷ insert x ys)
      insert-InOrder_after x y [] h s = (h, tt)
      insert-InOrder_after x y (z ∷ zs) h (a, s) = elim (Bool-cases (le x z)) [
        | inl e ↦ rw e (h, (e, s))
        | inr e ↦ rw e (a, insert-InOrder_after x z zs (total x z e) s)
      ]

      insert-InOrder : (x : A) (ys : List A) → InOrder ys → InOrder (insert x ys)
      insert-InOrder x [] s = tt
      insert-InOrder x (y ∷ ys) s = elim (Bool-cases (le x y)) [
        | inl e ↦ rw e (e, s)
        | inr e ↦ rw e (insert-InOrder_after x y ys (total x y e) s)
      ]

      pub sort_by-InOrder : (xs : List A) → InOrder (sort_by xs)
      sort_by-InOrder [] = tt
      sort_by-InOrder (x ∷ xs) = insert-InOrder x (sort_by xs) (sort_by-InOrder xs)

  abbrev pub count_by : (A → Bool) → List A → ℕ
  count_by p [] = 0
  count_by p (x ∷ xs) = if p x then suc (count_by p xs) else count_by p xs

  pub count_by-append :
      (p : A → Bool) (xs ys : List A) → count_by p (xs ++ ys) ≡ count_by p xs + count_by p ys
  count_by-append p [] ys = omega arith
  count_by-append p (x ∷ xs) ys = elim (Bool-cases (p x)) [
    | inl e ↦ rw e (omega (arith, count_by-append p xs ys))
    | inr e ↦ rw e (count_by-append p xs ys)
  ]

  count_by-insert :
      (le : A → A → Bool) (p : A → Bool) (x : A) (ys : List A)
      → count_by p (insert le x ys) ≡ count_by p (x ∷ ys)
  count_by-insert le p x [] = refl
  count_by-insert le p x (y ∷ ys) = ground (arith, count_by-insert le p x ys)

  -- A sort keeps how often each test holds.
  pub count_by-sort_by :
      (le : A → A → Bool) (p : A → Bool) (xs : List A) → count_by p (sort_by le xs) ≡ count_by p xs
  count_by-sort_by le p [] = refl
  count_by-sort_by le p (x ∷ xs) =
      count_by-insert le p x (sort_by le xs)
      ∙ ap (λ n. if p x then suc n else n) (count_by-sort_by le p xs)
