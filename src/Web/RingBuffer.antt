-- ===== src/Web/RingBuffer.antt =====
-- apps/web/lib/realtime/ringBuffer.ts. An unwritten slot of `data` is `none`.
pub mod Wrap
pub mod Contents
pub mod Pushes
use rvf_malinois.Prelude.{
  get_or, replicate, List, Option, set, ℕ, suc, zero, none, some, [], ◌∷◌, if◌then◌else◌, ◌==◌, ltb,
  ◌+◌, ◌-◌, ◌%◌,
}

pub record RingBuffer {ℓ} (T : Type ℓ) : Type ℓ where
  pub capacity : ℕ
  -- `data`
  pub slots : List (Option T)
  pub head : ℕ
  pub size : ℕ

module _ {ℓ} {T : Type ℓ} where
  -- `new RingBuffer(capacity)`, none where it throws
  unfoldable pub create : ℕ → Option (RingBuffer T)
  create capacity =
      if capacity == 0
      then none
      else some
          (record { capacity = capacity; slots = replicate capacity none; head = 0; size = 0 })

  unfoldable pub push : T → RingBuffer T → RingBuffer T
  push value r = record r {
    slots = set r.slots r.head (some value);
    head = (r.head + 1) % r.capacity;
    size = if ltb r.size r.capacity then r.size + 1 else r.size;
  }

  unfoldable pub latest : RingBuffer T → Option T
  latest r =
      if r.size == 0 then none else get_or r.slots ((r.head + r.capacity - 1) % r.capacity) none

  -- The loop over `i`, with `n` rounds left; a hole of `out` is `none`.
  unfoldable pub copy_from : RingBuffer T → ℕ → ℕ → ℕ → List (Option T)
  copy_from r start i zero = []
  copy_from r start i (suc n) =
      get_or r.slots ((start + i) % r.capacity) none ∷ copy_from r start (i + 1) n

  unfoldable pub to_array : RingBuffer T → List (Option T)
  unfolding copy_from
  to_array r =
      if r.size == 0 then [] else copy_from r ((r.head + r.capacity - r.size) % r.capacity) 0 r.size

  unfoldable pub clear : RingBuffer T → RingBuffer T
  clear r = record r { head = 0; size = 0; slots = replicate r.capacity none }
