-- ===== src/Prelude/Lists.antt =====
-- Lists measured and indexed by native numbers, searched by Boolean tests, and the predicates on
-- all of a list's members.
use Prim.Native.Nat.{ℕ, zero, suc, ◌+◌}
use mathlib.Core.Path.{◌≡◌}
use mathlib.Core.Bool.{Bool, true, false}
use mathlib.Core.Option.{Option, none, some}
use mathlib.Core.List.{List, [], ◌∷◌, ◌++◌}
use native.Mathlib.Omega.{arith}
use mathlib.Core.Logic.{inl, inr}
use rvf_malinois.Prelude.Tests.{if◌then◌else◌, Bool-cases}

module _ {ℓ} {A : Type ℓ} where
  abbrev pub length : List A → ℕ
  length [] = 0
  length (x ∷ xs) = suc (length xs)

  abbrev pub take : ℕ → List A → List A
  take zero xs = []
  take (suc n) [] = []
  take (suc n) (x ∷ xs) = x ∷ take n xs

  -- `Array.find` and Prisma's `findFirst` / `findUnique` over a table.
  abbrev pub find_by : (A → Bool) → List A → Option A
  find_by p [] = none
  find_by p (x ∷ xs) = if p x then some x else find_by p xs

  abbrev pub filter_by : (A → Bool) → List A → List A
  filter_by p [] = []
  filter_by p (x ∷ xs) = if p x then x ∷ filter_by p xs else filter_by p xs

  -- `Array.some`.
  abbrev pub any_by : (A → Bool) → List A → Bool
  any_by p [] = false
  any_by p (x ∷ xs) = if p x then true else any_by p xs

  -- Membership with its position, to be matched on.
  pub data In (a : A) : List A → Type ℓ where
    here : {xs : List A} → In a (a ∷ xs)
    there : {x : A} {xs : List A} → In a xs → In a (x ∷ xs)

  abbrev pub All {κ} : (A → Type κ) → List A → Type κ
  All P [] = Unit
  All P (x ∷ xs) = P x × All P xs

  pub length-append : (xs ys : List A) → length (xs ++ ys) ≡ length xs + length ys
  length-append [] ys = omega arith
  length-append (x ∷ xs) ys = omega (arith, length-append xs ys)

module _ {ℓ} {A : Type ℓ} where
  pub All-append {κ} : (P : A → Type κ) (xs ys : List A) → All P xs → All P ys → All P (xs ++ ys)
  All-append P [] ys h k = k
  All-append P (x ∷ xs) ys (p, h) k = (p, All-append P xs ys h k)

  pub All-map {κ μ} :
      {P : A → Type κ} {Q : A → Type μ} (xs : List A) → ((a : A) → P a → Q a) → All P xs → All Q xs
  All-map [] f h = tt
  All-map (x ∷ xs) f (p, h) = (f x p, All-map xs f h)

  pub All-In {κ} : (P : A → Type κ) {a : A} {xs : List A} → All P xs → In a xs → P a
  All-In P h here = h.0
  All-In P h (there i) = All-In P h.1 i

  pub All-of_In {κ} : (P : A → Type κ) (xs : List A) → ((a : A) → In a xs → P a) → All P xs
  All-of_In P [] f = tt
  All-of_In P (x ∷ xs) f = (f x here, All-of_In P xs (λ a i. f a (there i)))

  -- What is found is a member and passes the test.
  pub find_by-some :
      (p : A → Bool) (xs : List A) {a : A} → find_by p xs ≡ some a → In a xs × (p a ≡ true)
  find_by-some p [] h = cc
  find_by-some p (x ∷ xs) {a} h = elim (Bool-cases (p x)) [
    | inl e ↦ let q : x ≡ a = ground arith in (rw (← q) here, rw (← q) e)
    | inr e ↦ let (i, t) = find_by-some p xs {a = a} (rw e at h) in (there i, t)
  ]

  -- Nothing is found exactly when every member fails the test.
  pub find_by-none : (p : A → Bool) (xs : List A) → find_by p xs ≡ none → All (λ a. p a ≡ false) xs
  find_by-none p [] h = tt
  find_by-none p (x ∷ xs) h = ground (arith, find_by-none p xs)

  -- What the test says of its members holds of all that a filter keeps.
  pub All-filter_by {κ} :
      {P : A → Type κ} (p : A → Bool) (xs : List A)
      → ((a : A) → p a ≡ true → P a)
      → All P (filter_by p xs)
  All-filter_by p [] f = tt
  All-filter_by p (x ∷ xs) f = elim (Bool-cases (p x)) [
    | inl e ↦ rw e (f x e, All-filter_by p xs f)
    | inr e ↦ rw e (All-filter_by p xs f)
  ]

  pub All-filter_by_In {κ} :
      {P : A → Type κ} (p : A → Bool) (xs : List A)
      → ((a : A) → In a xs → p a ≡ true → P a)
      → All P (filter_by p xs)
  All-filter_by_In p [] f = tt
  All-filter_by_In p (x ∷ xs) f =
      let rest = All-filter_by_In p xs (λ a i h. f a (there i) h) in
      elim (Bool-cases (p x)) [ inl e ↦ rw e (f x here e, rest) | inr e ↦ rw e rest ]
