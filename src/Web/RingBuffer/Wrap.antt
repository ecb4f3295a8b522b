-- ===== src/Web/RingBuffer/Wrap.antt =====
-- Places in a buffer of `c` slots, counted round its end.
use rvf_malinois.Prelude.{
  suc, lt-or-le, ℕ, ◌≡◌, ap, sym, ◌∙◌, arith, ◌⊎◌, inl, inr, ◌+◌, ◌-◌, ◌%◌, ◌≤◌, ◌<◌, ◌≢◌,
}
use native.Mathlib.Nat.{mod-eq_of_lt, mod-eq-sub-mod, mod-add-mod}

-- A number below twice the capacity, brought back into the buffer.
wrap-cases : (c n : ℕ) → n < c + c → ((n < c) × (n % c ≡ n)) ⊎ ((c ≤ n) × (n % c + c ≡ n))
wrap-cases c n h = elim (lt-or-le n c) [
  | inl k ↦ inl (k, mod-eq_of_lt k)
  | inr k ↦ inr (k, omega (arith, mod-eq-sub-mod k, mod-eq_of_lt {n = n - c} {m = c} (omega arith)))
]

-- The slot of the `k`-th of the last `n` values is not the one that is written next.
pub oldest_ne :
    (c h n k : ℕ) → h < c → k < n → n ≤ c → ((h + c - n) % c + (0 + k)) % c ≡ h → n ≡ c × (k ≡ 0)
oldest_ne c h n k hh hk hn e = elim (wrap-cases c (h + c - n) (omega arith)) [
  | inl (a, p) ↦ elim (wrap-cases c ((h + c - n) % c + (0 + k)) (omega arith)) [
    | inl (b, q) ↦ (omega arith, omega arith)
    | inr (b, q) ↦ (omega arith, omega arith)
  ]
  | inr (a, p) ↦ elim (wrap-cases c ((h + c - n) % c + (0 + k)) (omega arith)) [
    | inl (b, q) ↦ (omega arith, omega arith)
    | inr (b, q) ↦ (omega arith, omega arith)
  ]
]

pub newest_eq : (c h n : ℕ) → h < c → n < c → ((h + c - n) % c + (0 + n)) % c ≡ h
newest_eq c h n hh hn = elim (wrap-cases c (h + c - n) (omega arith)) [
  | inl (a, p) ↦ elim (wrap-cases c ((h + c - n) % c + (0 + n)) (omega arith)) [
    | inl (b, q) ↦ omega arith
    | inr (b, q) ↦ omega arith
  ]
  | inr (a, p) ↦ elim (wrap-cases c ((h + c - n) % c + (0 + n)) (omega arith)) [
    | inl (b, q) ↦ omega arith
    | inr (b, q) ↦ omega arith
  ]
]

-- The place of the oldest value stays where it is while the buffer has room.
pub oldest_next : (c h n : ℕ) → h < c → n < c → ((h + 1) % c + c - (n + 1)) % c ≡ (h + c - n) % c
oldest_next c h n hh hn = elim (wrap-cases c (h + 1) (omega arith)) [
  | inl (a, p) ↦ ap (λ m. m % c) (omega arith)
  | inr (a, p) ↦
      let e : (h + 1) % c + c - (n + 1) ≡ h + c - n - c = omega arith in
      ap (λ m. m % c) e ∙ sym (mod-eq-sub-mod {n = h + c - n} {m = c} (omega arith))
]

-- In a full buffer the oldest value is one place further on after a push.
full_place : (c h k : ℕ) → (((h + 1) % c + c - c) % c + (0 + k)) % c ≡ (h + 1 + k) % c
full_place c h k =
    ap (λ a. (a % c + (0 + k)) % c) (omega arith)
    ∙ mod-add-mod ((h + 1) % c) c (0 + k)
    ∙ mod-add-mod (h + 1) c (0 + k)
    ∙ ap (λ a. a % c) (omega arith)

pub full_next :
    (c h k : ℕ) → (((h + 1) % c + c - c) % c + (0 + k)) % c ≡ ((h + c - c) % c + (1 + k)) % c
full_next c h k =
    full_place c h k ∙ ap (λ a. a % c) (omega arith) ∙ sym (mod-add-mod (h + c - c) c (1 + k))

pub full_ne : (c h k : ℕ) → h < c → suc k < c → h ≢ (((h + 1) % c + c - c) % c + (0 + k)) % c
full_ne c h k hh hk e = elim (wrap-cases c (h + 1 + k) (omega arith)) [
  | inl (a, p) ↦ omega (arith, full_place c h k)
  | inr (a, p) ↦ omega (arith, full_place c h k)
]

pub full_last : (c h : ℕ) → h < c → (((h + 1) % c + c - c) % c + (0 + (c - 1))) % c ≡ h
full_last c h hh = elim (wrap-cases c (h + 1 + (c - 1)) (omega arith)) [
  | inl (a, p) ↦ omega (arith, full_place c h (c - 1))
  | inr (a, p) ↦ omega (arith, full_place c h (c - 1))
]

pub latest_eq : (c h : ℕ) → h < c → ((h + 1) % c + c - 1) % c ≡ h
latest_eq c h hh = elim (wrap-cases c (h + 1) (omega arith)) [
  | inl (a, p) ↦ elim (wrap-cases c ((h + 1) % c + c - 1) (omega arith)) [
    | inl (b, q) ↦ omega arith
    | inr (b, q) ↦ omega arith
  ]
  | inr (a, p) ↦ elim (wrap-cases c ((h + 1) % c + c - 1) (omega arith)) [
    | inl (b, q) ↦ omega arith
    | inr (b, q) ↦ omega arith
  ]
]
