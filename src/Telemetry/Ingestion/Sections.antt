-- ===== src/Telemetry/Ingestion/Sections.antt =====
-- Every section of `processSample` does what its outcome says.
use rvf_malinois.Store.Endings.{
  Ends-query, Ends-pure, Ends-throw, Ends-if, EndsOut, Ends-bind, Ends, Ends-map,
}
use rvf_malinois.Telemetry.Ingestion.Outcomes.{Meets, Quarantined}
use rvf_malinois.Store.Frames.{counted-Same, command-cases, keeps_rules, Same, Keeps}
use rvf_malinois.Telemetry.Ingestion.Contracts.{Sample}
use rvf_malinois.Telemetry.Ingestion.Storing.{
  identical, classify_dedup, conflict_args, on_fault, on_duplicate_of, quarantine_conflict,
  Normalized, SampleContext,
}
use rvf_malinois.Telemetry.Ingestion.Quarantine.{
  write_quarantine, quarantine_result, QuarantineArgs, new_error, create_error, quarantine_value,
}
use rvf_malinois.Realtime.Events.{PendingRealtimeEmit}
use rvf_malinois.Store.Rows.{TelemetryReading, Decimal, Db}
use rvf_malinois.Prelude.{
  ℕ, refl, ◌≡◌, Option, Uuid, none, some, ok, ◌∷◌, List, inl, inr, sym, subst, ap,
}
use rvf_malinois.Store.Effects.{
  Fault, unexpected, unique_violation, counted, World, next_id, Env, ◌>>=◌,
}

module _ {d : Db} {em : List PendingRealtimeEmit} (env : Env) where
  quarantine_value-Keeps : (sample : Sample) → Keeps (Same d em) (quarantine_value env sample)
  unfolding quarantine_value
  quarantine_value-Keeps sample = search keeps_rules

module _ {d : Db} {em : List PendingRealtimeEmit} {env : Env} {ctx : SampleContext} where
  new_error-Quarantined :
      (id : Uuid) (args : QuarantineArgs) (value : Option Decimal)
      → args.sample ≡ ctx.sample
      → (w : World) → Same d em w
      → Quarantined env ctx d em id args.reason (record (counted w) {
        db = record w.db { errors = new_error env id args value ∷ w.db.errors };
      })
  unfolding new_error
  new_error-Quarantined id args value e w s = record {
    row = new_error env id args value;
    one_error =
        ap (λ (x : Db). record x { errors = new_error env id args value ∷ x.errors }) s.db_same;
    row_id = refl;
    row_reason = refl;
    row_sample = ap (λ (x : Sample). x.external_identifier) e;
    silent = s.emitted_same;
  }

  create_error-Ends :
      (args : QuarantineArgs) (value : Option Decimal)
      → args.sample ≡ ctx.sample
      → Ends d em (λ id. Quarantined env ctx d em id args.reason) (create_error env args value)
  unfolding create_error next_id ◌>>=◌
  create_error-Ends args value e = record {
    at = λ w s.
        elim (command-cases env
          (λ db. ok (
            env.uuid w.calls,
            record db { errors = new_error env (env.uuid w.calls) args value ∷ db.errors },
          ))
          w) [
            | inl c ↦
                subst (EndsOut d em (λ id. Quarantined env ctx d em id args.reason)) (sym c)
                  (counted-Same s)
            | inr c ↦
                subst (EndsOut d em (λ id. Quarantined env ctx d em id args.reason)) (sym c)
                  (new_error-Quarantined (env.uuid w.calls) args value e w s)
          ];
  }

  write_quarantine-Ends :
      (args : QuarantineArgs)
      → args.sample ≡ ctx.sample
      → Ends d em (λ id. Quarantined env ctx d em id args.reason) (write_quarantine env args)
  unfolding write_quarantine
  write_quarantine-Ends args e =
      Ends-bind (quarantine_value env args.sample) (create_error env args)
        (quarantine_value-Keeps env args.sample) (λ value. create_error-Ends args value e)

  pub quarantine_result-Meets :
      (args : QuarantineArgs) (i : ℕ)
      → args.sample ≡ ctx.sample
      → Meets env ctx d em (quarantine_result env i args)
  unfolding quarantine_result
  quarantine_result-Meets args i e =
      Ends-map (write_quarantine env args) _ (write_quarantine-Ends args e) (λ id w q. q)

  module _ (n : Normalized) where
    quarantine_conflict-Meets : Meets env ctx d em (quarantine_conflict env ctx n)
    unfolding quarantine_conflict conflict_args
    quarantine_conflict-Meets =
        Ends-map (write_quarantine env (conflict_args ctx n)) _
          (write_quarantine-Ends (conflict_args ctx n) refl) (λ id w q. q)

    on_duplicate_of-Meets :
        (o : Option TelemetryReading) → Meets env ctx d em (on_duplicate_of env ctx n o)
    unfolding on_duplicate_of
    on_duplicate_of-Meets none = quarantine_conflict-Meets
    on_duplicate_of-Meets (some row) =
        Ends-if (identical ctx n row) _ _ (λ e. Ends-pure _ (λ w s. s))
          (λ e. quarantine_conflict-Meets)

    pub on_fault-Meets : (e : Fault) → Meets env ctx d em (on_fault env ctx n e)
    unfolding on_fault classify_dedup
    on_fault-Meets unexpected = Ends-throw unexpected
    on_fault-Meets unique_violation = Ends-query env _ _ (on_duplicate_of-Meets _)
