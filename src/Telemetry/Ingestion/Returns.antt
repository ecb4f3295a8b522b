-- ===== src/Telemetry/Ingestion/Returns.antt =====
-- That `ingestBatch` answers where the database does.
use rvf_malinois.Store.Rows.{mapping_engine_failure, Decimal, IntegrationSource, Db}
use rvf_malinois.Telemetry.Ingestion.Storing.{SampleContext}
use rvf_malinois.Telemetry.Ingestion.Contracts.{
  value_schema, SampleValue, value_str, SampleResult, Sample, BatchInput,
}
use rvf_malinois.Telemetry.Ingestion.Quarantine.{
  QuarantineArgs, write_quarantine, create_error, quarantine_result, quarantine_value,
}
use rvf_malinois.Telemetry.Ingestion.Service.{
  sample_step, ingest_batch, process_guarded, each_sample,
}
use rvf_malinois.Store.Effects.{
  command, throw, next_id, query, or_unexpected, recover, Fault, continue, World, Env, pure, M,
  attempt, Out, ◌>>=◌,
}
use rvf_malinois.Prelude.{
  All, str_eq, List, arith, Option, Time, Bool, is_some, ◌≡◌, ℕ, refl, [], ◌∷◌, none, some, true,
  false, if◌then◌else◌, suc, ok, err,
}

abbrev pub IsOk : {A : Type 0} → Out A → Type 0
IsOk (ok a, w) = Unit
IsOk (err e, w) = ⊥

pub record Returns {A : Type 0} (m : M A) : Type 0 where
  pub at : (w : World) → IsOk (m w)

continue_lem :
    {A B : Type 0} (out : Out A) (f : A → M B)
    → IsOk out
    → ((a : A) → Returns (f a))
    → IsOk (continue out f)
continue_lem (ok a, w) f k l = (l a).at w
continue_lem (err e, w) f k l = k

Returns-bind :
    {A B : Type 0} (m : M A) (f : A → M B)
    → Returns m
    → ((a : A) → Returns (f a))
    → Returns (m >>= f)
unfolding ◌>>=◌
Returns-bind m f k l = record { at = λ w. continue_lem (m w) f (k.at w) l }

Returns-pure : {A : Type 0} (a : A) → Returns (pure a)
unfolding pure
Returns-pure a = record { at = λ w. tt }

recover_lem :
    {A : Type 0} (out : Out A) (h : Fault → M A)
    → ((e : Fault) → Returns (h e))
    → IsOk (recover out h)
recover_lem (ok a, w) h k = tt
recover_lem (err e, w) h k = (k e).at w

-- Whatever the body does, the handler's return is enough.
Returns-attempt :
    {A : Type 0} (m : M A) (h : Fault → M A) → ((e : Fault) → Returns (h e)) → Returns (attempt m h)
unfolding attempt
Returns-attempt m h k = record { at = λ w. recover_lem (m w) h k }

module _ (env : Env) (calm : (i : ℕ) → env.fails i ≡ false)
    (parses : (v : SampleValue)
      → value_schema v ≡ true
      → is_some (env.decimal (value_str v)) ≡ true) where
  -- A sample whose value the schema takes.
  abbrev Fits : Sample → Type 0
  Fits s = value_schema s.value ≡ true

  Returns-query : {A : Type 0} (f : Db → A) → Returns (query env f)
  unfolding query
  Returns-query f = record { at = λ w. ground (arith, calm w.calls) }

  value_lem :
      (b : Bool) (o : Option Decimal)
      → (b ≡ true → is_some o ≡ true)
      → Returns (if b then (or_unexpected o >>= λ value. pure (some value)) else pure none)
  unfolding ◌>>=◌ or_unexpected pure throw
  value_lem false o h = record { at = λ w. tt }
  value_lem true (some d) h = record { at = λ w. tt }
  value_lem true none h = record { at = λ w. ground (arith, h refl) }

  quarantine_value-Returns : (s : Sample) → Fits s → Returns (quarantine_value env s)
  unfolding quarantine_value
  quarantine_value-Returns s h =
      value_lem (env.is_finite (value_str s.value)) (env.decimal (value_str s.value))
        (λ finite. parses s.value h)

  create_error-Returns :
      (args : QuarantineArgs) (value : Option Decimal) → Returns (create_error env args value)
  unfolding create_error next_id command ◌>>=◌
  create_error-Returns args value = record { at = λ w. ground (arith, calm w.calls) }

  quarantine_result-Returns :
      (i : ℕ) (args : QuarantineArgs) → Fits args.sample → Returns (quarantine_result env i args)
  unfolding quarantine_result write_quarantine
  quarantine_result-Returns i args h =
      Returns-bind _ _
        (Returns-bind _ _ (quarantine_value-Returns args.sample h) (create_error-Returns args))
        (λ id. Returns-pure _)

  process_guarded-Returns :
      (ctx : SampleContext) → Fits ctx.sample → Returns (process_guarded env ctx)
  unfolding process_guarded
  process_guarded-Returns ctx h = Returns-attempt _ _ (λ e.
      quarantine_result-Returns ctx.sample_index
        (record {
          reason = mapping_engine_failure;
          sample = ctx.sample;
          correlation_id = ctx.correlation_id;
          tenant_id = some ctx.source.tenant_id;
          integration_source_id = some ctx.source.id;
          integration_mapping_id = none;
          unit_id = none;
          sensor_id = none;
          canonical_tag_id = none;
        })
        h)

  either_step :
      (b : Bool) (m k : ℕ → Sample → M SampleResult)
      → ((i : ℕ) (s : Sample) → Fits s → Returns (m i s))
      → ((i : ℕ) (s : Sample) → Fits s → Returns (k i s))
      → (i : ℕ) (s : Sample) → Fits s
      → Returns ((if b then m else k) i s)
  either_step true m k f g = f
  either_step false m k f g = g

  sample_step-Returns :
      (input : BatchInput) (now : Time) (source : Option IntegrationSource) (i : ℕ) (s : Sample)
      → Fits s
      → Returns (sample_step env input now source i s)
  sample_step-Returns input now none i s h = quarantine_result-Returns i _ h
  sample_step-Returns input now (some source) i s h =
      either_step (str_eq source.status "active") _ _ (λ j x k. process_guarded-Returns _ k)
        (λ j x k. quarantine_result-Returns j _ k) i s h

  each_sample-Returns :
      (step : ℕ → Sample → M SampleResult)
      → ((i : ℕ) (s : Sample) → Fits s → Returns (step i s))
      → (i : ℕ) (ss : List Sample) → All Fits ss
      → Returns (each_sample env step i ss)
  unfolding each_sample
  each_sample-Returns step k i [] h = Returns-pure []
  each_sample-Returns step k i (s ∷ ss) (p, h) =
      Returns-bind _ _ (k i s p)
        (λ one. Returns-bind _ _ (each_sample-Returns step k (suc i) ss h) (λ rest. Returns-pure _))

  batch-Returns :
      (input : BatchInput) (now : Time)
      → All Fits input.samples
      → Returns (ingest_batch env input now)
  unfolding ingest_batch
  batch-Returns input now h = Returns-bind _ _ (Returns-query _) (λ source.
      Returns-bind _ _
        (each_sample-Returns _ (sample_step-Returns input now source) 0 input.samples h)
        (λ results. Returns-pure _))

-- If no database call throws, and the decimal type takes the text of every value that the request's
-- schema takes, then `ingestBatch` returns a result, from any tables and for any batch whose values the
-- schema takes.
pub ingest_batch-returns :
    (env : Env)
    → ((i : ℕ) → env.fails i ≡ false)
    → ((v : SampleValue) → value_schema v ≡ true → is_some (env.decimal (value_str v)) ≡ true)
    → (input : BatchInput) (now : Time) (w : World)
    → All (λ s. value_schema s.value ≡ true) input.samples
    → IsOk (ingest_batch env input now w)
ingest_batch-returns env calm parses input now w h =
    (batch-Returns env calm parses input now h).at w
