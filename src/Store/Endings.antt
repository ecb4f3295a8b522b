-- ===== src/Store/Endings.antt =====
-- Postconditions over the database: what a piece of code that starts from given tables and a given
-- log returns, where a throw leaves both as they were.
use rvf_malinois.Store.Frames.{counted-Same, query-cases, Same, Keeps}
use rvf_malinois.Realtime.Events.{PendingRealtimeEmit}
use rvf_malinois.Store.Rows.{Db}
use rvf_malinois.Prelude.{
  if◌then◌else◌, Option, ◌≡◌, Bool, none, some, ok, err, inl, inr, true, false, refl, sym, subst,
  List,
}
use rvf_malinois.Store.Effects.{
  counted, recover, Env, continue, Fault, query, M, attempt, Out, pure, throw, or_unexpected, World,
  ◌>>=◌,
}

module _ (d : Db) (em : List PendingRealtimeEmit) {A : Type 0} (Q : A → World → Type 0) where
  abbrev pub EndsOut : Out A → Type 0
  EndsOut (ok a, w) = Q a w
  EndsOut (err e, w) = Same d em w

  pub record Ends (m : M A) : Type 0 where
    pub at : (w : World) → Same d em w → EndsOut (m w)

module _ {d : Db} {em : List PendingRealtimeEmit} {B : Type 0} {Q : B → World → Type 0} where
  continue_lem :
      {A : Type 0} (out : Out A) (f : A → M B)
      → Same d em out.1
      → ((a : A) → Ends d em Q (f a))
      → EndsOut d em Q (continue out f)
  continue_lem (ok a, w) f s k = (k a).at w s
  continue_lem (err e, w) f s k = s

  pub Ends-bind :
      {A : Type 0} (m : M A) (f : A → M B)
      → Keeps (Same d em) m
      → ((a : A) → Ends d em Q (f a))
      → Ends d em Q (m >>= f)
  unfolding ◌>>=◌
  Ends-bind m f k l = record { at = λ w s. continue_lem (m w) f (k.at w s) l }

  -- A query returns what it computes from the tables as they were.
  pub Ends-query :
      {A : Type 0} (env : Env) (q : Db → A) (f : A → M B)
      → Ends d em Q (f (q d))
      → Ends d em Q (query env q >>= f)
  unfolding ◌>>=◌
  Ends-query env q f k = record {
    at = λ w s. elim (query-cases env q w) [
      | inl e ↦ subst (λ out. EndsOut d em Q (continue out f)) (sym e) (counted-Same s)
      | inr e ↦
          subst (λ out. EndsOut d em Q (continue out f)) (sym e)
            ((subst (λ x. Ends d em Q (f (q x))) (sym s.db_same) k).at (counted w) (counted-Same s))
    ];
  }

  pub Ends-or_unexpected :
      {A : Type 0} (o : Option A) (f : A → M B)
      → ((a : A) → o ≡ some a → Ends d em Q (f a))
      → Ends d em Q (or_unexpected o >>= f)
  unfolding ◌>>=◌ or_unexpected throw pure
  Ends-or_unexpected none f k = record { at = λ w s. s }
  Ends-or_unexpected (some a) f k = record { at = λ w s. (k a refl).at w s }

  pub Ends-if :
      (b : Bool) (m k : M B)
      → (b ≡ true → Ends d em Q m)
      → (b ≡ false → Ends d em Q k)
      → Ends d em Q (if b then m else k)
  Ends-if true m k h l = h refl
  Ends-if false m k h l = l refl

  recover_lem :
      (out : Out B) (h : Fault → M B)
      → EndsOut d em Q out
      → ((e : Fault) → Ends d em Q (h e))
      → EndsOut d em Q (recover out h)
  recover_lem (ok a, w) h p k = p
  recover_lem (err e, w) h p k = (k e).at w p

  pub Ends-attempt :
      (m : M B) (h : Fault → M B)
      → Ends d em Q m
      → ((e : Fault) → Ends d em Q (h e))
      → Ends d em Q (attempt m h)
  unfolding attempt
  Ends-attempt m h k l = record { at = λ w s. recover_lem (m w) h (k.at w s) l }

  pub Ends-throw : (e : Fault) → Ends d em Q (throw {A = B} e)
  unfolding throw
  Ends-throw e = record { at = λ w s. s }

  pub Ends-pure : (b : B) → ((w : World) → Same d em w → Q b w) → Ends d em Q (pure b)
  unfolding pure
  Ends-pure b k = record { at = k }

map_lem :
    (d : Db) (em : List PendingRealtimeEmit) {A B : Type 0} (P : A → World → Type 0)
    (Q : B → World → Type 0) (out : Out A) (f : A → B)
    → EndsOut d em P out
    → ((a : A) (w : World) → P a w → Q (f a) w)
    → EndsOut d em Q (continue out (λ a. pure (f a)))
unfolding pure
map_lem d em P Q (ok a, w) f p k = k a w p
map_lem d em P Q (err e, w) f p k = p

pub Ends-map :
    {d : Db} {em : List PendingRealtimeEmit} {A B : Type 0} {P : A → World → Type 0}
    {Q : B → World → Type 0} (m : M A) (f : A → B)
    → Ends d em P m
    → ((a : A) (w : World) → P a w → Q (f a) w)
    → Ends d em Q (m >>= λ a. pure (f a))
unfolding ◌>>=◌
Ends-map {d = d} {em = em} {P = P} {Q = Q} m f p k = record {
  at = λ w s. map_lem d em P Q (m w) f (p.at w s) k;
}
