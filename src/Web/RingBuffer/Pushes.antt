-- ===== src/Web/RingBuffer/Pushes.antt =====
-- What the ring buffer holds after any number of pushes.
use rvf_malinois.Web.RingBuffer.Contents.{
  IsValid, push-IsValid, push-to_array_room, push-to_array_full, length-to_array,
}
use rvf_malinois.Web.RingBuffer.Wrap.{latest_eq}
use rvf_malinois.Web.RingBuffer.{RingBuffer, create, push, latest, to_array}
use mathlib.Core.List.{append-nil, append_assoc}
use rvf_malinois.Prelude.{
  get_or, get_or-set_self, false, ◌==◌, keep_last-append, length-replicate, zero, keep_last-all,
  keep_last-map, refl, replicate, drop, ap, drop-append, ◌-◌, inr, sym, ◌∙◌, inl, lt-or-le,
  length-append, arith, suc, length, map, ◌++◌, [], ◌<◌, none, keep_last, some, ◌∷◌, List, ◌≡◌, ℕ,
}

module _ {ℓ} {T : Type ℓ} where
  -- Pushing keeps the last `capacity` values of what the buffer held and the new one, oldest first,
  -- whether the buffer was full or not.
  pub push-to_array :
      (r : RingBuffer T) (v : T)
      → IsValid r
      → to_array (push v r) ≡ keep_last r.capacity (to_array r ++ (some v ∷ []))
  push-to_array r v w =
      let len : length (to_array r ++ (some v ∷ [])) ≡ suc r.size =
        omega (arith, length-append (to_array r) (some v ∷ []), length-to_array r) in
      elim (lt-or-le r.size r.capacity) [
        | inl h ↦
            push-to_array_room r v w h
            ∙ sym (keep_last-all r.capacity (to_array r ++ (some v ∷ [])) (omega arith))
        | inr h ↦
            let full : r.size ≡ r.capacity = omega (arith, w.size_le) in
            let n : ℕ = length (to_array r ++ (some v ∷ [])) - r.capacity in
            let one : 1 ≡ n = omega arith in
            push-to_array_full r v w full
            ∙ sym
                (drop-append 1 (to_array r) (some v ∷ []) (omega (arith, length-to_array r, w.pos)))
            ∙ ap (λ k. drop k (to_array r ++ (some v ∷ []))) one
      ]

  pub push-capacity : (r : RingBuffer T) (v : T) → (push v r).capacity ≡ r.capacity
  unfolding push
  push-capacity r v = refl

  pub create-IsValid :
      (c : ℕ)
      → (r : RingBuffer T) × (create {T = T} (suc c) ≡ some r)
        × IsValid r
        × (to_array r ≡ [])
        × (r.capacity ≡ suc c)
  unfolding create to_array
  create-IsValid c = (
    record { capacity = suc c; slots = replicate (suc c) none; head = 0; size = 0 },
    ground arith,
    record {
      pos = omega arith;
      slots_length = length-replicate (suc c) none;
      head_lt = omega arith;
      size_le = omega arith;
    },
    refl,
    refl,
  )

  -- The pushes of the values of a list, the first of them first.
  abbrev pub push_all : List T → RingBuffer T → RingBuffer T
  push_all [] r = r
  push_all (v ∷ vs) r = push_all vs (push v r)

  push_all-to_array :
      (vs : List T) (r : RingBuffer T)
      → IsValid r
      → (to_array (push_all vs r) ≡ keep_last r.capacity (to_array r ++ map some vs))
        × IsValid (push_all vs r)
        × ((push_all vs r).capacity ≡ r.capacity)
  push_all-to_array [] r w = (
    sym (
        keep_last-all r.capacity (to_array r ++ [])
          (omega (arith, length-append (to_array r) [], length-to_array r, w.size_le))
        ∙ append-nil (to_array r)),
    w,
    refl,
  )
  push_all-to_array (v ∷ vs) r w =
      let (held, valid, same) = push_all-to_array vs (push v r) (push-IsValid r v w) in
      let e : (push v r).capacity ≡ r.capacity = push-capacity r v in
      (
        held
            ∙ ap (λ c. keep_last c (to_array (push v r) ++ map some vs)) e
            ∙ ap (λ xs. keep_last r.capacity (xs ++ map some vs)) (push-to_array r v w)
            ∙ keep_last-append r.capacity (to_array r ++ (some v ∷ [])) (map some vs)
            ∙ ap (keep_last r.capacity) (append_assoc (to_array r) (some v ∷ []) (map some vs)),
        valid,
        same ∙ e,
      )

  -- `to_array` after the values of a list are pushed into a new buffer is the list's last `capacity`
  -- values in their order, all of them written, whatever the capacity, as long as it is not zero;
  -- a capacity of zero makes no buffer.
  pub create-push_all-to_array :
      (c : ℕ) (vs : List T)
      → (c ≡ 0 → create {T = T} c ≡ none)
        × (0 < c
            → (r : RingBuffer T) × (create c ≡ some r)
              × (to_array (push_all vs r) ≡ map some (keep_last c vs)))
  unfolding create
  create-push_all-to_array zero vs = (λ e. refl, λ h. absurd (omega arith))
  create-push_all-to_array (suc c) vs =
      let (r, made, valid, nothing, cap) = create-IsValid c in
      let (held, _, _) = push_all-to_array vs r valid in
      (
        λ e. absurd (omega arith),
        λ h. (
          r,
          made,
          held
              ∙ ap (λ n. keep_last n (to_array r ++ map some vs)) cap
              ∙ ap (λ xs. keep_last (suc c) (xs ++ map some vs)) nothing
              ∙ keep_last-map some (suc c) vs,
        ),
      )

  -- `latest` is the value pushed last, and the last of `to_array`.
  pub latest-push : (r : RingBuffer T) (v : T) → IsValid r → latest (push v r) ≡ some v
  unfolding latest push
  latest-push r v w =
      let used : ((push v r).size == 0) ≡ false = ground (arith, w.pos) in
      rw used (
        ap (λ j. get_or (push v r).slots j none) (latest_eq r.capacity r.head w.head_lt)
        ∙ get_or-set_self r.slots r.head (some v) none (omega (arith, w.slots_length, w.head_lt)))
