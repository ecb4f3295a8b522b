-- ===== src/Store/Effects.antt =====
-- Code over the database: every query or statement is a numbered call that may throw, a transaction
-- restores the tables when its body throws, and post-commit events go to a log.
use rvf_malinois.Realtime.Events.{PendingRealtimeEmit}
use rvf_malinois.Store.Rows.{Decimal, AlarmRule, Db}
use rvf_malinois.Prelude.{
  none, some, ℕ, suc, Uuid, Time, String, Bool, Option, List, ◌++◌, Result, ok, err, if◌then◌else◌,
}

-- What is thrown: Prisma's P2002, or anything else.
pub data Fault : Type 0 where
  unique_violation unexpected : Fault

-- What the program does not implement: which database calls throw, the UUID that the n-th insert is
-- given, the order of `ORDER BY severity`, and the parsing and comparing of dates and decimals.
pub record Env : Type 0 where
  pub fails : ℕ → Bool
  pub uuid : ℕ → Uuid
  pub by_severity : List AlarmRule → List AlarmRule
  -- `new Date(text).getTime()`, none for NaN
  pub parse_date : String → Option Time
  -- `Number.isFinite(Number(text))`
  pub is_finite : String → Bool
  -- `new Prisma.Decimal(text)`, none where it throws
  pub decimal : String → Option Decimal
  pub greater_than : Decimal → Decimal → Bool
  pub less_than : Decimal → Decimal → Bool

-- The tables, the number of calls made so far, and the descriptors handed to the emitter.
pub record World : Type 0 where
  pub db : Db
  pub calls : ℕ
  pub emitted : List PendingRealtimeEmit

abbrev pub Out : Type 0 → Type 0
Out A = Result Fault A × World

abbrev pub M : Type 0 → Type 0
M A = World → Out A

unfoldable pub pure : {A : Type 0} → A → M A
pure a w = (ok a, w)

unfoldable pub throw : {A : Type 0} → Fault → M A
throw e w = (err e, w)

abbrev pub continue : {A B : Type 0} → Out A → (A → M B) → Out B
continue (ok a, w) f = f a w
continue (err e, w) f = (err e, w)

infixl 5 ◌>>=◌ ◌>>◌
unfoldable pub ◌>>=◌ : {A B : Type 0} → M A → (A → M B) → M B
◌>>=◌ m f w = continue (m w) f

abbrev pub ◌>>◌ : {B : Type 0} → M (Unit {0}) → M B → M B
first >> rest = first >>= λ done. rest

-- `try { m } catch (e) { handler(e) }`
abbrev pub recover : {A : Type 0} → Out A → (Fault → M A) → Out A
recover (ok a, w) handler = (ok a, w)
recover (err e, w) handler = handler e w

unfoldable pub attempt : {A : Type 0} → M A → (Fault → M A) → M A
attempt m handler w = recover (m w) handler

abbrev pub counted : World → World
counted w = record w { calls = suc w.calls }

-- The value of an option, or a throw.
unfoldable pub or_unexpected : {A : Type 0} → Option A → M A
unfolding throw pure
or_unexpected none = throw unexpected
or_unexpected (some a) = pure a

abbrev pub settle : {A : Type 0} → Result Fault (A × Db) → World → Out A
settle (ok (a, d)) w = (ok a, record w { db = d })
settle (err e) w = (err e, w)

-- The end of a transaction: its body threw, its commit throws, or the body's tables stay.
abbrev pub finish : {A : Type 0} → Db → Bool → Out A → Out A
finish before refused (err e, w) = (err e, record w { db = before })
finish before refused (ok a, w) =
    if refused then (err unexpected, record (counted w) { db = before }) else (ok a, counted w)

module _ (env : Env) where
  -- The UUID that the next insert is given.
  unfoldable pub next_id : M Uuid
  next_id w = (ok (env.uuid w.calls), w)

  unfoldable pub query : {A : Type 0} → (Db → A) → M A
  query f w = if env.fails w.calls then (err unexpected, counted w) else (ok (f w.db), counted w)

  unfoldable pub command : {A : Type 0} → (Db → Result Fault (A × Db)) → M A
  command f w =
      if env.fails w.calls then (err unexpected, counted w) else settle (f w.db) (counted w)

  -- `prisma.$transaction(body)`, with no other writer between the statements of the body
  unfoldable pub transaction : {A : Type 0} → M A → M A
  transaction body w = let out = body w in finish w.db (env.fails out.1.calls) out

-- `realtime.emitMany(events)`: the emitter itself is modelled on its own.
unfoldable pub emit_many : List PendingRealtimeEmit → M (Unit {0})
emit_many events w = (ok tt, record w { emitted = w.emitted ++ events })
