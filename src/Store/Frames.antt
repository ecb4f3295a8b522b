-- ===== src/Store/Frames.antt =====
-- Frames: what a piece of code over the database leaves alone.
use rvf_malinois.Realtime.Events.{PendingRealtimeEmit}
use rvf_malinois.Store.Rows.{Db}
use rvf_malinois.Store.Effects.{
  settle, unexpected, counted, command, next_id, recover, continue, throw, attempt, Fault, M, Env,
  Out, pure, query, World, ◌>>=◌, or_unexpected,
}
use rvf_malinois.Prelude.{
  inr, inl, Bool-cases, ◌⊎◌, Result, arith, true, false, if◌then◌else◌, Bool, ◌≡◌, List, ok, err,
  Option, some, none,
}

-- A query throws or returns its value; either way it changes no table and emits nothing.
pub query-cases :
    (env : Env) {A : Type 0} (f : Db → A) (w : World)
    → (query env f w ≡ (err unexpected, counted w)) ⊎ (query env f w ≡ (ok (f w.db), counted w))
unfolding query
query-cases env f w = elim (Bool-cases (env.fails w.calls)) [
  | inl e ↦ inl (rw e)
  | inr e ↦ inr (rw e)
]

-- A statement throws before it runs, or runs.
pub command-cases :
    (env : Env) {A : Type 0} (f : Db → Result Fault (A × Db)) (w : World)
    → (command env f w ≡ (err unexpected, counted w))
      ⊎ (command env f w ≡ settle (f w.db) (counted w))
unfolding command
command-cases env f w = elim (Bool-cases (env.fails w.calls)) [
  | inl e ↦ inl (rw e)
  | inr e ↦ inr (rw e)
]

-- The tables and the log of emitted events are as given.
pub record Same (db : Db) (emitted : List PendingRealtimeEmit) (w : World) : Type 0 where
  pub db_same : w.db ≡ db
  pub emitted_same : w.emitted ≡ emitted

-- As `Same`, but for the two tables that are derived from an accepted reading.
pub record DerivedOnly (db : Db) (emitted : List PendingRealtimeEmit) (w : World) : Type 0 where
  pub db_but_derived : w.db ≡ record db { live = w.db.live; events = w.db.events }
  pub log_same : w.emitted ≡ emitted

module _ {db : Db} {emitted : List PendingRealtimeEmit} where
  pub counted-Same : {w : World} → Same db emitted w → Same db emitted (counted w)
  counted-Same s = record { db_same = s.db_same; emitted_same = s.emitted_same }

-- A predicate on worlds that holds after a piece of code, whether or not it throws.
pub record Keeps {A : Type 0} (P : World → Type 0) (m : M A) : Type 0 where
  pub at : (w : World) → P w → P (m w).1

module _ {P : World → Type 0} where
  continue_lem :
      {A B : Type 0} (out : Out A) (f : A → M B)
      → P out.1
      → ((a : A) → Keeps P (f a))
      → P (continue out f).1
  continue_lem (ok a, w) f p k = (k a).at w p
  continue_lem (err e, w) f p k = p

  recover_lem :
      {A : Type 0} (out : Out A) (h : Fault → M A)
      → P out.1
      → ((e : Fault) → Keeps P (h e))
      → P (recover out h).1
  recover_lem (ok a, w) h p k = p
  recover_lem (err e, w) h p k = (k e).at w p

  pub Keeps-bind :
      {A B : Type 0} (m : M A) (f : A → M B)
      → Keeps P m
      → ((a : A) → Keeps P (f a))
      → Keeps P (m >>= f)
  unfolding ◌>>=◌
  Keeps-bind m f k l = record { at = λ w p. continue_lem (m w) f (k.at w p) l }

  pub Keeps-attempt :
      {A : Type 0} (m : M A) (h : Fault → M A)
      → Keeps P m
      → ((e : Fault) → Keeps P (h e))
      → Keeps P (attempt m h)
  unfolding attempt
  Keeps-attempt m h k l = record { at = λ w p. recover_lem (m w) h (k.at w p) l }

  pub Keeps-pure : {A : Type 0} (a : A) → Keeps P (pure a)
  unfolding pure
  Keeps-pure a = record { at = λ w p. p }

  pub Keeps-throw : {A : Type 0} (e : Fault) → Keeps P (throw {A = A} e)
  unfolding throw
  Keeps-throw e = record { at = λ w p. p }

  pub Keeps-if :
      {A : Type 0} (b : Bool) (m k : M A) → Keeps P m → Keeps P k → Keeps P (if b then m else k)
  Keeps-if true m k h l = h
  Keeps-if false m k h l = l

  pub Keeps-or_unexpected : {A : Type 0} (o : Option A) → Keeps P (or_unexpected o)
  unfolding or_unexpected throw pure
  Keeps-or_unexpected none = record { at = λ w p. p }
  Keeps-or_unexpected (some a) = record { at = λ w p. p }

pub ruleset keeps_rules =
    (Keeps-bind, Keeps-attempt, Keeps-pure, Keeps-throw, Keeps-if, Keeps-or_unexpected)

-- Reading changes no table and emits nothing, whether or not it throws.
module _ {d : Db} {em : List PendingRealtimeEmit} (env : Env) where
  pub Keeps-query : {A : Type 0} (f : Db → A) → Keeps (Same d em) (query env f)
  unfolding query
  Keeps-query f = record { at = λ w s. ground arith }

  pub Keeps-query-derived : {A : Type 0} (f : Db → A) → Keeps (DerivedOnly d em) (query env f)
  unfolding query
  Keeps-query-derived f = record { at = λ w s. ground arith }

  pub Keeps-next_id : Keeps (Same d em) (next_id env)
  unfolding next_id
  Keeps-next_id = record { at = λ w s. s }

  pub Keeps-next_id-derived : Keeps (DerivedOnly d em) (next_id env)
  unfolding next_id
  Keeps-next_id-derived = record { at = λ w s. s }
