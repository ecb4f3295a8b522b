-- ===== src/Prelude/Scalars.antt =====
-- The scalar columns that the tables share.
use Prim.Native.Nat.{ℕ}

-- A UUID column is the number that it spells.
abbrev pub Uuid : Type 0
Uuid = ℕ

-- An instant, in milliseconds from the first one that a JavaScript `Date` can hold.
abbrev pub Time : Type 0
Time = ℕ
