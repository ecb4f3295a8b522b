-- ===== src/Telemetry/Ingestion/Service.antt =====
-- apps/backend/src/telemetry/ingestion/telemetry-ingestion.service.ts: `processSample`, section by
-- section, and `ingestBatch`.
use rvf_malinois.Telemetry.Ingestion.Resolution.{
  failed, resolved, Resolution, resolve_sensor_and_tag,
}
use rvf_malinois.Telemetry.Ingestion.Quarantine.{quarantine_result}
use rvf_malinois.Store.Rows.{
  invalid_value, unit_mismatch, inactive_context, mapping_engine_failure, tenant_mismatch,
  late_outside_window, future_timestamp, unknown_source, CanonicalTag, unknown_mapping,
  disabled_mapping, IntegrationMapping, IntegrationSource, QuarantineReason,
}
use rvf_malinois.Telemetry.Ingestion.Storing.{store_sample, SampleContext}
use rvf_malinois.Telemetry.Ingestion.Contracts.{
  duplicate, rejected_request, value_str, rejected_quarantined, conflict_quarantined, BatchInput,
  BatchResult, accepted, Sample, SampleResult, ingestion_max_future_skew_ms, Outcome,
  ingestion_max_late_window_ms,
}
use rvf_malinois.Store.Effects.{or_unexpected, attempt, pure, M, query, Env, ◌>>=◌}
use rvf_malinois.Prelude.{
  ℕ, suc, ◌+◌, ◌==◌, ltb, Uuid, Time, String, str_eq, Bool, true, false, not, ◌&&◌, Option, none,
  some, List, [], ◌∷◌, find_by, if◌then◌else◌,
}

-- `a ?? b`
abbrev pub or_else {ℓ} : {A : Type ℓ} → Option A → Option A → Option A
or_else none b = b
or_else (some a) b = some a

abbrev pub or_default {ℓ} : {A : Type ℓ} → Option A → A → A
or_default none b = b
or_default (some a) b = a

-- `delta > INGESTION_MAX_FUTURE_SKEW_MS`, false for NaN
abbrev pub is_future : Time → Option Time → Bool
is_future now none = false
is_future now (some at) = ltb (now + ingestion_max_future_skew_ms) at

-- `-delta > INGESTION_MAX_LATE_WINDOW_MS`, false for NaN
abbrev pub is_late : Time → Option Time → Bool
is_late now none = false
is_late now (some at) = ltb (at + ingestion_max_late_window_ms) now

module _ (env : Env) (ctx : SampleContext) where
  abbrev pub reject_unmapped : QuarantineReason → M SampleResult
  reject_unmapped reason = quarantine_result env ctx.sample_index (record {
    reason = reason;
    sample = ctx.sample;
    correlation_id = ctx.correlation_id;
    tenant_id = some ctx.source.tenant_id;
    integration_source_id = some ctx.source.id;
    integration_mapping_id = none;
    unit_id = none;
    sensor_id = none;
    canonical_tag_id = none;
  })

  abbrev pub reject :
      IntegrationMapping → Option Uuid → Option Uuid → QuarantineReason → M SampleResult
  reject mapping sensor tag reason = quarantine_result env ctx.sample_index (record {
    reason = reason;
    sample = ctx.sample;
    correlation_id = ctx.correlation_id;
    tenant_id = some ctx.source.tenant_id;
    integration_source_id = some ctx.source.id;
    integration_mapping_id = some mapping.id;
    unit_id = some mapping.unit_id;
    sensor_id = sensor;
    canonical_tag_id = tag;
  })

  -- 5. Value normalization, and the constructions that precede the transaction.
  unfoldable pub check_value : IntegrationMapping → Uuid → Uuid → Option Time → M SampleResult
  unfolding store_sample quarantine_result
  check_value mapping sensor tag at =
      if env.is_finite (value_str ctx.sample.value)
      then (do
        value ← or_unexpected (env.decimal (value_str ctx.sample.value))
        timestamp ← or_unexpected at
        store_sample env ctx (record {
          mapping = mapping;
          sensor_id = sensor;
          canonical_tag_id = tag;
          timestamp = timestamp;
          value = value;
        }))
      else reject mapping (some sensor) (some tag) invalid_value

  -- 4. Temporal normalization.
  unfoldable pub check_time : IntegrationMapping → Uuid → Uuid → M SampleResult
  unfolding check_value quarantine_result
  check_time mapping sensor tag =
      let at = env.parse_date ctx.sample.timestamp in
      if is_future ctx.now at
      then reject mapping (some sensor) (some tag) future_timestamp
      else if is_late ctx.now at
      then reject mapping (some sensor) (some tag) late_outside_window
      else check_value mapping sensor tag at

  -- 3. Unit check.
  unfoldable pub on_tag : IntegrationMapping → Uuid → Uuid → Option CanonicalTag → M SampleResult
  unfolding check_time quarantine_result
  on_tag mapping sensor tag none = reject mapping (some sensor) (some tag) mapping_engine_failure
  on_tag mapping sensor tag (some t) =
      if str_eq ctx.sample.engineering_unit
        (or_default mapping.engineering_unit_override t.canonical_unit)
      then check_time mapping sensor tag
      else reject mapping (some sensor) (some tag) unit_mismatch

  unfoldable pub check_unit : IntegrationMapping → Uuid → Uuid → M SampleResult
  unfolding query on_tag
  check_unit mapping sensor tag = do
    found ← query env (λ db. find_by (λ t. t.id == tag) db.tags)
    on_tag mapping sensor tag found

  -- 2. Sensor and tag resolution.
  unfoldable pub on_resolution : IntegrationMapping → Resolution → M SampleResult
  unfolding check_unit quarantine_result
  on_resolution mapping (resolved sensor tag) = check_unit mapping sensor tag
  on_resolution mapping (failed sensor tag reason) =
      reject mapping (or_else mapping.sensor_id sensor) (or_else mapping.canonical_tag_id tag)
        reason

  -- The rest of 1, and 2.
  unfoldable pub check_mapping : IntegrationMapping → M SampleResult
  unfolding resolve_sensor_and_tag on_resolution quarantine_result
  check_mapping mapping =
      if not mapping.enabled
      then reject mapping mapping.sensor_id mapping.canonical_tag_id disabled_mapping
      else if not (mapping.tenant_id == ctx.source.tenant_id)
      then reject mapping mapping.sensor_id mapping.canonical_tag_id tenant_mismatch
      else (do resolution ← resolve_sensor_and_tag env mapping; on_resolution mapping resolution)

  unfoldable pub on_mapping : Option IntegrationMapping → M SampleResult
  unfolding check_mapping quarantine_result
  on_mapping none = reject_unmapped unknown_mapping
  on_mapping (some mapping) = check_mapping mapping

  abbrev pub is_mapping : IntegrationMapping → Bool
  is_mapping m =
      m.integration_source_id == ctx.source.id
      && str_eq m.external_identifier ctx.sample.external_identifier

  -- 1. Mapping resolution.
  unfoldable pub process_sample : M SampleResult
  unfolding query on_mapping
  process_sample = do mapping ← query env (λ db. find_by is_mapping db.mappings); on_mapping mapping

  -- The `try` of the batch loop: any throw becomes `mapping_engine_failure`.
  unfoldable pub process_guarded : M SampleResult
  unfolding process_sample
  process_guarded = attempt process_sample (λ e. reject_unmapped mapping_engine_failure)

-- The tallies of `aggregate`, as a fold over the results.
abbrev pub tally : (Outcome → Bool) → List SampleResult → ℕ
tally p [] = 0
tally p (r ∷ rs) = if p r.outcome then suc (tally p rs) else tally p rs

abbrev pub is_accepted : Outcome → Bool
is_accepted (accepted id) = true
is_accepted _ = false

abbrev pub is_duplicate : Outcome → Bool
is_duplicate duplicate = true
is_duplicate _ = false

abbrev pub is_conflict : Outcome → Bool
is_conflict (conflict_quarantined id r) = true
is_conflict _ = false

abbrev pub is_rejected : Outcome → Bool
is_rejected (rejected_quarantined id r) = true
is_rejected _ = false

abbrev pub is_rejected_request : Outcome → Bool
is_rejected_request rejected_request = true
is_rejected_request _ = false

unfoldable pub aggregate : Option String → List SampleResult → BatchResult
aggregate correlation results = record {
  correlation_id = correlation;
  accepted_count = tally is_accepted results;
  duplicate_count = tally is_duplicate results;
  conflict_quarantined_count = tally is_conflict results;
  rejected_quarantined_count = tally is_rejected results;
  rejected_request_count = tally is_rejected_request results;
  results = results;
}

module _ (env : Env) where
  -- A loop over `input.samples.entries()`.
  unfoldable pub each_sample :
      (ℕ → Sample → M SampleResult) → ℕ → List Sample → M (List SampleResult)
  each_sample step i [] = pure []
  each_sample step i (s ∷ ss) = do
    one ← step i s
    rest ← each_sample step (suc i) ss
    pure (one ∷ rest)

  abbrev pub reject_all :
      Option String → Option Uuid → Option Uuid → QuarantineReason → ℕ → Sample → M SampleResult
  reject_all correlation tenant source reason i sample = quarantine_result env i (record {
    reason = reason;
    sample = sample;
    correlation_id = correlation;
    tenant_id = tenant;
    integration_source_id = source;
    integration_mapping_id = none;
    unit_id = none;
    sensor_id = none;
    canonical_tag_id = none;
  })

  abbrev pub sample_step :
      BatchInput → Time → Option IntegrationSource → ℕ → Sample → M SampleResult
  sample_step input now none = reject_all input.correlation_id none none unknown_source
  sample_step input now (some source) =
      if str_eq source.status "active"
      then (λ i sample. process_guarded env (record {
        sample = sample;
        sample_index = i;
        source = source;
        correlation_id = input.correlation_id;
        now = now;
      }))
      else reject_all input.correlation_id (some source.tenant_id) (some source.id) inactive_context

  unfoldable pub ingest_batch : BatchInput → Time → M BatchResult
  unfolding query each_sample quarantine_result process_guarded aggregate
  ingest_batch input now = do
    source ← query env (λ db. find_by (λ s. s.id == input.integration_source_id) db.sources)
    results ← each_sample (sample_step input now source) 0 input.samples
    pure (aggregate input.correlation_id results)
