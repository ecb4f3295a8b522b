-- ===== src/Prelude/Maps.antt =====
-- A `Map` with text keys, as its entries in the order in which they were inserted.
use Prim.Native.String.{String}
use mathlib.Core.Path.{sym, subst, ap, ◌≡◌, refl}
use mathlib.Core.Bool.{Bool, true, false}
use mathlib.Core.Logic.{inl, inr}
use mathlib.Core.Option.{Option, none, some}
use mathlib.Core.List.{List, [], ◌∷◌}
use native.Mathlib.Omega.{arith}
use text.Mathlib.Text.{◌==◌ as str_eq}
use text.Mathlib.TextEquality.{eq_iff as str_eq_iff}
use Prim.Native.Nat.{suc, ◌≤◌}
use rvf_malinois.Prelude.Lists.{All}
use rvf_malinois.Prelude.Sorting.{count_by}
use rvf_malinois.Prelude.Tests.{if◌then◌else◌, Bool-cases}

pub str_eq_refl : (k : String) → str_eq k k ≡ true
str_eq_refl k = (str_eq_iff k k).1 refl

pub str_eq-false_sym : (a b : String) → str_eq a b ≡ false → str_eq b a ≡ false
str_eq-false_sym a b h = elim (Bool-cases (str_eq b a)) [
  | inl e ↦ let same : str_eq a b ≡ true = (str_eq_iff a b).1 (sym ((str_eq_iff b a).0 e)) in cc
  | inr e ↦ e
]

module _ {ℓ} {A : Type ℓ} where
  -- `map.get(key)`
  abbrev pub lookup : String → List (String × A) → Option A
  lookup key [] = none
  lookup key ((k, a) ∷ rest) = if str_eq k key then some a else lookup key rest

  -- `map.set(key, value)`: an entry that is there keeps its place.
  abbrev pub assign : String → A → List (String × A) → List (String × A)
  assign key value [] = (key, value) ∷ []
  assign key value ((k, a) ∷ rest) =
      if str_eq k key then (k, value) ∷ rest else (k, a) ∷ assign key value rest

  -- `map.delete(key)`
  abbrev pub remove : String → List (String × A) → List (String × A)
  remove key [] = []
  remove key ((k, a) ∷ rest) = if str_eq k key then rest else (k, a) ∷ remove key rest

  pub lookup-assign_self :
      (key : String) (value : A) (m : List (String × A))
      → lookup key (assign key value m) ≡ some value
  lookup-assign_self key value [] = rw (str_eq_refl key) refl
  lookup-assign_self key value ((k, a) ∷ rest) = elim (Bool-cases (str_eq k key)) [
    | inl e ↦ rw e (rw e refl)
    | inr e ↦ rw e (rw e (lookup-assign_self key value rest))
  ]

  pub lookup-assign_ne :
      (key other : String) (value : A) (m : List (String × A))
      → str_eq key other ≡ false
      → lookup other (assign key value m) ≡ lookup other m
  lookup-assign_ne key other value [] h = rw h refl
  lookup-assign_ne key other value ((k, a) ∷ rest) h = elim (Bool-cases (str_eq k key)) [
    | inl e ↦
        let q : k ≡ key = (str_eq_iff k key).0 e in
        let f : str_eq k other ≡ false = rw q h in rw e (rw f refl)
    | inr e ↦
        rw e
          (ap (λ m. if str_eq k other then some a else m) (lookup-assign_ne key other value rest h))
  ]

  -- Removing a key that is not there changes nothing, and one just added leaves no trace.
  pub remove-assign :
      (key : String) (value : A) (m : List (String × A))
      → lookup key m ≡ none
      → remove key (assign key value m) ≡ m
  remove-assign key value [] h = rw (str_eq_refl key) refl
  remove-assign key value ((k, a) ∷ rest) h = elim (Bool-cases (str_eq k key)) [
    | inl e ↦ let q : some a ≡ none = rw e at h in cc
    | inr e ↦ rw e (rw e (ap (λ m. (k, a) ∷ m) (remove-assign key value rest (rw e at h))))
  ]

  abbrev pub has_name : String → String × A → Bool
  has_name key e = str_eq e.0 key

  -- An assignment to one key leaves the entries of the others.
  pub count_by-assign_ne :
      (key other : String) (value : A) (m : List (String × A))
      → str_eq key other ≡ false
      → count_by (has_name other) (assign key value m) ≡ count_by (has_name other) m
  count_by-assign_ne key other value [] h = rw h refl
  count_by-assign_ne key other value ((k, a) ∷ rest) h = elim (Bool-cases (str_eq k key)) [
    | inl e ↦ rw e refl
    | inr e ↦
        rw e (
          ap (λ n. if str_eq k other then suc n else n) (count_by-assign_ne key other value rest h))
  ]

  pub count_by-assign_self :
      (key : String) (value : A) (m : List (String × A))
      → count_by (has_name key) m ≤ 1
      → count_by (has_name key) (assign key value m) ≤ 1
  count_by-assign_self key value [] h = rw (str_eq_refl key) (omega arith)
  count_by-assign_self key value ((k, a) ∷ rest) h = elim (Bool-cases (str_eq k key)) [
    | inl e ↦ rw e (rw e (rw e at h))
    | inr e ↦ rw e (rw e (count_by-assign_self key value rest (rw e at h)))
  ]

  -- No key has two entries.
  abbrev pub Unique : List (String × A) → Type 0
  Unique m = (key : String) → count_by (has_name key) m ≤ 1

  pub assign-Unique :
      (key : String) (value : A) (m : List (String × A)) → Unique m → Unique (assign key value m)
  assign-Unique key value m u other = elim (Bool-cases (str_eq key other)) [
    | inl e ↦
        let q : key ≡ other = (str_eq_iff key other).0 e in
        rw (← q) (count_by-assign_self key value m (u key))
    | inr e ↦ rw (count_by-assign_ne key other value m e) (u other)
  ]

  module _ {κ} (P : String → A → Type κ) where
    abbrev pub Entries : List (String × A) → Type κ
    Entries m = All (λ e. P e.0 e.1) m

    pub assign-Entries :
        (key : String) (value : A) (m : List (String × A))
        → P key value
        → Entries m
        → Entries (assign key value m)
    assign-Entries key value [] p h = (p, tt)
    assign-Entries key value ((k, a) ∷ rest) p (q, h) = elim (Bool-cases (str_eq k key)) [
      | inl e ↦ rw e (subst (λ x. P x value) (sym ((str_eq_iff k key).0 e)) p, h)
      | inr e ↦ rw e (q, assign-Entries key value rest p h)
    ]

    pub lookup-Entries :
        (key : String) (m : List (String × A)) (a : A) → Entries m → lookup key m ≡ some a → P key a
    lookup-Entries key [] a h e = cc
    lookup-Entries key ((k, b) ∷ rest) a (q, h) e = elim (Bool-cases (str_eq k key)) [
      | inl t ↦
          let s : some b ≡ some a = rw t at e in
          let i : b ≡ a = cc in subst (P key) i (subst (λ x. P x b) ((str_eq_iff k key).0 t) q)
      | inr t ↦ lookup-Entries key rest a h (rw t at e)
    ]
