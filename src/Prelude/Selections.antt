-- ===== src/Prelude/Selections.antt =====
-- What `WHERE`, `ORDER BY` and `LIMIT` keep of a table.
use Prim.Native.Nat.{ℕ, zero, suc, min}
use mathlib.Core.Path.{◌≡◌, refl, ◌∙◌}
use mathlib.Core.Bool.{◌&&◌, false, Bool, true}
use mathlib.Core.Logic.{inl, inr}
use mathlib.Core.List.{List, [], ◌∷◌, map}
use native.Mathlib.Omega.{arith}
use rvf_malinois.Prelude.Tests.{Bool-cases}
use rvf_malinois.Prelude.Lists.{take, filter_by, All, In, here, there}
use rvf_malinois.Prelude.Sorting.{insert, sort_by, InOrder, count_by}

module _ {ℓ} {A : Type ℓ} where
  -- A test that another implies may be made first.
  pub filter_by-filter_by :
      (p q : A → Bool) (xs : List A)
      → ((a : A) → p a ≡ true → q a ≡ true)
      → filter_by p (filter_by q xs) ≡ filter_by p xs
  filter_by-filter_by p q [] f = refl
  filter_by-filter_by p q (x ∷ xs) f = ground (arith, f x, filter_by-filter_by p q xs f)

  pub All-take {κ} : (P : A → Type κ) (n : ℕ) (xs : List A) → All P xs → All P (take n xs)
  All-take P zero xs h = tt
  All-take P (suc n) [] h = tt
  All-take P (suc n) (x ∷ xs) h = (h.0, All-take P n xs h.1)

  module _ (le : A → A → Bool) where
    All-insert {κ} :
        (P : A → Type κ) (x : A) (ys : List A) → P x → All P ys → All P (insert le x ys)
    All-insert P x [] p h = (p, tt)
    All-insert P x (y ∷ ys) p h = elim (Bool-cases (le x y)) [
      | inl e ↦ rw e (p, h)
      | inr e ↦ rw e (h.0, All-insert P x ys p h.1)
    ]

    pub All-sort_by {κ} : (P : A → Type κ) (xs : List A) → All P xs → All P (sort_by le xs)
    All-sort_by P [] h = tt
    All-sort_by P (x ∷ xs) h = All-insert P x (sort_by le xs) h.0 (All-sort_by P xs h.1)

    pub InOrder-take : (n : ℕ) (xs : List A) → InOrder le xs → InOrder le (take n xs)
    InOrder-take zero xs h = tt
    InOrder-take (suc n) [] h = tt
    InOrder-take (suc zero) (x ∷ xs) h = tt
    InOrder-take (suc (suc n)) (x ∷ []) h = tt
    InOrder-take (suc (suc n)) (x ∷ (y ∷ ys)) h = (h.0, InOrder-take (suc n) (y ∷ ys) h.1)

module _ {ℓ} {A : Type ℓ} (le : A → A → Bool) where
  InOrder-tail : (x : A) (xs : List A) → InOrder le (x ∷ xs) → InOrder le xs
  InOrder-tail x [] s = tt
  InOrder-tail x (y ∷ ys) s = s.1

  -- A test that no member passes once one before it has failed.
  module _ (r : A → Bool) (closed : (a b : A) → le a b ≡ true → r a ≡ false → r b ≡ false) where
    count_by-closed : (x : A) (xs : List A) → r x ≡ false → InOrder le (x ∷ xs) → count_by r xs ≡ 0
    count_by-closed x [] h s = refl
    count_by-closed x (y ∷ ys) h s =
        let e : r y ≡ false = closed x y s.0 h in rw e (count_by-closed y ys e s.1)

    -- The first members of a sorted table have as many that pass it as there can be.
    pub count_by-take :
        (n : ℕ) (xs : List A) → InOrder le xs → count_by r (take n xs) ≡ min n (count_by r xs)
    count_by-take zero xs s = omega arith
    count_by-take (suc n) [] s = omega arith
    count_by-take (suc n) (x ∷ xs) s =
        let rest = count_by-take n xs (InOrder-tail x xs s) in
        elim (Bool-cases (r x)) [
          | inl e ↦ rw e (omega (arith, rest))
          | inr e ↦ rw e (omega (arith, rest, count_by-closed x xs e s))
        ]

module _ {ℓ} {A : Type ℓ} where
  pub count_by-filter_by :
      (p r : A → Bool) (xs : List A) → count_by r (filter_by p xs) ≡ count_by (λ x. p x && r x) xs
  count_by-filter_by p r [] = refl
  count_by-filter_by p r (x ∷ xs) = ground (arith, count_by-filter_by p r xs)

module _ {ℓ κ} {A : Type ℓ} {B : Type κ} (f : A → B) where
  pub count_by-map :
      (r : B → Bool) (xs : List A) → count_by r (map f xs) ≡ count_by (λ x. r (f x)) xs
  count_by-map r [] = refl
  count_by-map r (x ∷ xs) = ground (arith, count_by-map r xs)

module _ {ℓ κ} {A : Type ℓ} {B : Type κ} (f : A → B) where
  pub InOrder-map :
      (le : A → A → Bool) (le' : B → B → Bool)
      → ((a b : A) → le' (f a) (f b) ≡ le a b)
      → (xs : List A) → InOrder le xs
      → InOrder le' (map f xs)
  InOrder-map le le' e [] h = tt
  InOrder-map le le' e (x ∷ []) h = tt
  InOrder-map le le' e (x ∷ (y ∷ ys)) h = (e x y ∙ h.0, InOrder-map le le' e (y ∷ ys) h.1)

  pub All-of_map {μ} : (P : B → Type μ) (xs : List A) → All (λ a. P (f a)) xs → All P (map f xs)
  All-of_map P [] h = tt
  All-of_map P (x ∷ xs) h = (h.0, All-of_map P xs h.1)

module _ {ℓ} {A : Type ℓ} where
  pub In-filter_by :
      (p : A → Bool) {a : A} (xs : List A) → In a xs → p a ≡ true → In a (filter_by p xs)
  In-filter_by p [] i h = elim i [ ]
  In-filter_by p (x ∷ xs) here h = rw h here
  In-filter_by p (x ∷ xs) (there i) h = elim (Bool-cases (p x)) [
    | inl e ↦ rw e (there (In-filter_by p xs i h))
    | inr e ↦ rw e (In-filter_by p xs i h)
  ]

  module _ (le : A → A → Bool) where
    In-insert_here : (a : A) (xs : List A) → In a (insert le a xs)
    In-insert_here a [] = here
    In-insert_here a (x ∷ xs) = elim (Bool-cases (le a x)) [
      | inl e ↦ rw e here
      | inr e ↦ rw e (there (In-insert_here a xs))
    ]

    In-insert : (b : A) {a : A} (xs : List A) → In a xs → In a (insert le b xs)
    In-insert b [] i = elim i [ ]
    In-insert b (x ∷ xs) here = elim (Bool-cases (le b x)) [
      | inl e ↦ rw e (there here)
      | inr e ↦ rw e here
    ]
    In-insert b (x ∷ xs) (there i) = elim (Bool-cases (le b x)) [
      | inl e ↦ rw e (there (there i))
      | inr e ↦ rw e (there (In-insert b xs i))
    ]

    pub In-sort_by : {a : A} (xs : List A) → In a xs → In a (sort_by le xs)
    In-sort_by [] i = elim i [ ]
    In-sort_by (x ∷ xs) here = In-insert_here x (sort_by le xs)
    In-sort_by (x ∷ xs) (there i) = In-insert x (sort_by le xs) (In-sort_by xs i)

module _ {ℓ κ} {A : Type ℓ} {B : Type κ} (f : A → B) where
  pub In-map : {a : A} (xs : List A) → In a xs → In (f a) (map f xs)
  In-map [] i = elim i [ ]
  In-map (x ∷ xs) here = here
  In-map (x ∷ xs) (there i) = there (In-map xs i)
