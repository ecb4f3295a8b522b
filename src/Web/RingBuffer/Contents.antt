-- ===== src/Web/RingBuffer/Contents.antt =====
-- The ring buffer as the list of the values that were pushed last.
use rvf_malinois.Prelude.{
  get_or-set_self, get_or-set_ne, drop, ◌≢◌, some, length-set, refl, [], zero, ◌∷◌, none, ◌++◌,
  get_or, suc, Option, ℕ, length, ◌+◌, ◌-◌, ◌%◌, ◌≤◌, ◌<◌, arith, ◌≡◌, sym, ap, ◌∙◌,
}
use native.Mathlib.Nat.{mod-lt}
use rvf_malinois.Web.RingBuffer.Wrap.{
  oldest_ne, newest_eq, oldest_next, full_next, full_ne, full_last,
}
use rvf_malinois.Web.RingBuffer.{push, copy_from, to_array, RingBuffer}

-- The slots are as many as the capacity, `head` is one of them, and no more are in use.
pub record IsValid {ℓ} {T : Type ℓ} (r : RingBuffer T) : Type 0 where
  pub pos : 0 < r.capacity
  pub slots_length : length r.slots ≡ r.capacity
  pub head_lt : r.head < r.capacity
  pub size_le : r.size ≤ r.capacity

module _ {ℓ} {T : Type ℓ} where
  slot : RingBuffer T → ℕ → ℕ → Option T
  slot r start k = get_or r.slots ((start + k) % r.capacity) none

  pub copy_from-ext :
      (r r' : RingBuffer T) (s s' i i' n : ℕ)
      → ((k : ℕ)
          → k < n
          → get_or r.slots ((s + (i + k)) % r.capacity) none
            ≡ get_or r'.slots ((s' + (i' + k)) % r'.capacity) none)
      → copy_from r s i n ≡ copy_from r' s' i' n
  unfolding copy_from
  copy_from-ext r r' s s' i i' zero f = refl
  copy_from-ext r r' s s' i i' (suc n) f =
      let e : i + 0 ≡ i = omega arith in
      let e' : i' + 0 ≡ i' = omega arith in
      let first : get_or r.slots ((s + i) % r.capacity) none
          ≡ get_or r'.slots ((s' + i') % r'.capacity) none =
        rw (← e, ← e') (f 0 (omega arith)) in
      let shift : (a : ℕ) (k : ℕ) → a + suc k ≡ a + 1 + k = λ a k. omega arith in
      let rest =
        copy_from-ext r r' s s' (i + 1) (i' + 1) n
          (λ k h. rw (← shift i k, ← shift i' k) (f (suc k) (omega arith))) in
      cc

  pub copy_from-snoc :
      (r : RingBuffer T) (s i n : ℕ)
      → copy_from r s i (suc n)
        ≡ copy_from r s i n ++ (get_or r.slots ((s + (i + n)) % r.capacity) none ∷ [])
  unfolding copy_from
  copy_from-snoc r s i zero = let e : i + 0 ≡ i = omega arith in rw e cc
  copy_from-snoc r s i (suc n) =
      let e : i + 1 + n ≡ i + suc n = omega arith in
      ap (λ l. get_or r.slots ((s + i) % r.capacity) none ∷ l)
        (rw e at (copy_from-snoc r s (i + 1) n))

  pub length-copy_from : (r : RingBuffer T) (s i n : ℕ) → length (copy_from r s i n) ≡ n
  unfolding copy_from
  length-copy_from r s i zero = refl
  length-copy_from r s i (suc n) = ap suc (length-copy_from r s (i + 1) n)

  pub to_array-copy_from :
      (r : RingBuffer T)
      → to_array r ≡ copy_from r ((r.head + r.capacity - r.size) % r.capacity) 0 r.size
  unfolding to_array copy_from
  to_array-copy_from r = ground arith

  pub length-to_array : (r : RingBuffer T) → length (to_array r) ≡ r.size
  length-to_array r =
      ap length (to_array-copy_from r)
      ∙ length-copy_from r ((r.head + r.capacity - r.size) % r.capacity) 0 r.size

  -- The buffer before and after a push, compared place by place.
  slot_kept :
      (r : RingBuffer T) (v : T) (j : ℕ)
      → r.head ≢ j
      → get_or (push v r).slots j none ≡ get_or r.slots j none
  unfolding push
  slot_kept r v j h = get_or-set_ne r.slots r.head j (some v) none h

  slot_written :
      (r : RingBuffer T) (v : T) → IsValid r → get_or (push v r).slots r.head none ≡ some v
  unfolding push
  slot_written r v w =
      get_or-set_self r.slots r.head (some v) none (omega (arith, w.slots_length, w.head_lt))

  pub push-IsValid : (r : RingBuffer T) (v : T) → IsValid r → IsValid (push v r)
  unfolding push
  push-IsValid r v w = record {
    pos = w.pos;
    slots_length = length-set r.slots r.head (some v) ∙ w.slots_length;
    head_lt = mod-lt (r.head + 1) w.pos;
    size_le = ground (arith, w.size_le);
  }

  push-size_room : (r : RingBuffer T) (v : T) → r.size < r.capacity → (push v r).size ≡ suc r.size
  unfolding push
  push-size_room r v h = ground arith

  push-size_full : (r : RingBuffer T) (v : T) → r.size ≡ r.capacity → (push v r).size ≡ r.size
  unfolding push
  push-size_full r v h = ground arith

  pub push-to_array_room :
      (r : RingBuffer T) (v : T)
      → IsValid r
      → r.size < r.capacity
      → to_array (push v r) ≡ to_array r ++ (some v ∷ [])
  unfolding push
  push-to_array_room r v w h =
      let start : ℕ = (r.head + r.capacity - r.size) % r.capacity in
      let s : ℕ → ℕ = λ n. ((r.head + 1) % r.capacity + r.capacity - n) % r.capacity in
      let e : s (push v r).size ≡ start =
        ap s (push-size_room r v h)
        ∙ ap s (omega arith)
        ∙ oldest_next r.capacity r.head r.size w.head_lt h in
      let kept : copy_from (push v r) start 0 r.size ≡ copy_from r start 0 r.size =
        copy_from-ext (push v r) r start start 0 0 r.size (λ k hk.
          slot_kept r v ((start + (0 + k)) % r.capacity) (λ q.
            let (a, b) = oldest_ne r.capacity r.head r.size k w.head_lt hk w.size_le (sym q) in
            omega arith)) in
      let last : get_or (push v r).slots ((start + (0 + r.size)) % r.capacity) none ≡ some v =
        ap (λ j. get_or (push v r).slots j none) (newest_eq r.capacity r.head r.size w.head_lt h)
        ∙ slot_written r v w in
      to_array-copy_from (push v r)
      ∙ ap (λ b. copy_from (push v r) b 0 (push v r).size) e
      ∙ ap (copy_from (push v r) start 0) (push-size_room r v h)
      ∙ copy_from-snoc (push v r) start 0 r.size
      ∙ ap (λ x. copy_from (push v r) start 0 r.size ++ (x ∷ [])) last
      ∙ ap (λ xs. xs ++ (some v ∷ [])) (kept ∙ sym (to_array-copy_from r))

  pub push-to_array_full :
      (r : RingBuffer T) (v : T)
      → IsValid r
      → r.size ≡ r.capacity
      → to_array (push v r) ≡ drop 1 (to_array r) ++ (some v ∷ [])
  unfolding push copy_from
  push-to_array_full r v w h =
      let c : ℕ = r.capacity in
      let m : ℕ = c - 1 in
      let start : ℕ = (r.head + c - c) % c in
      let next : ℕ = ((r.head + 1) % c + c - c) % c in
      let all : c ≡ suc m = omega (arith, w.pos) in
      let place : (k : ℕ) → ℕ = λ k. (next + (0 + k)) % c in
      let kept : copy_from (push v r) next 0 m ≡ copy_from r start 1 m =
        copy_from-ext (push v r) r next start 0 1 m (λ k hk.
          slot_kept r v (place k) (full_ne c r.head k w.head_lt (omega arith))
          ∙ ap (λ j. get_or r.slots j none) (full_next c r.head k)) in
      let last : get_or (push v r).slots (place m) none ≡ some v =
        ap (λ j. get_or (push v r).slots j none) (full_last c r.head w.head_lt)
        ∙ slot_written r v w in
      to_array-copy_from (push v r)
      ∙ ap (λ n. copy_from (push v r) (((r.head + 1) % c + c - n) % c) 0 n)
          (push-size_full r v h ∙ h)
      ∙ ap (copy_from (push v r) next 0) all
      ∙ copy_from-snoc (push v r) next 0 m
      ∙ ap (λ x. copy_from (push v r) next 0 m ++ (x ∷ [])) last
      ∙ ap (λ xs. xs ++ (some v ∷ []))
          (kept
            ∙ sym (ap (λ n. drop 1 (copy_from r start 0 n)) all)
            ∙ sym (ap (λ n. drop 1 (copy_from r ((r.head + c - n) % c) 0 n)) h)
            ∙ sym (ap (drop 1) (to_array-copy_from r)))
