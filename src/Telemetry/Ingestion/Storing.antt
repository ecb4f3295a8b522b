-- ===== src/Telemetry/Ingestion/Storing.antt =====
-- Section 6 of `processSample` in telemetry-ingestion.service.ts: the transaction, the events that
-- follow its commit, and `classifyDedup`.
use rvf_malinois.Telemetry.Ingestion.Readings.{is_existing, insert_reading}
use rvf_malinois.Telemetry.Projection.{
  alone, created, updated, update_from_accepted_telemetry, LiveReadingProjectionResult,
  AcceptedTelemetryProjectionInput,
}
use rvf_malinois.Store.Rows.{
  active, is_good, Decimal, good, conflict_dedup, same_quality, IntegrationSource, TelemetryReading,
  IntegrationMapping,
}
use rvf_malinois.Alarms.Evaluation.{
  evaluate, triggered, evaluated, RuleStatus, AcceptedTelemetryAlarmInput, AlarmRuleEvaluation,
  AlarmEvaluationResult,
}
use rvf_malinois.Telemetry.Ingestion.Quarantine.{write_quarantine, QuarantineArgs}
use rvf_malinois.Telemetry.Ingestion.Contracts.{
  accepted, duplicate, conflict_quarantined, SampleResult, value_str, Outcome, Sample,
}
use rvf_malinois.Store.Effects.{
  unexpected, unique_violation, emit_many, attempt, throw, pure, M, transaction, command, next_id,
  Fault, query, Env, ◌>>=◌, ◌>>◌,
}
use rvf_malinois.Prelude.{
  ℕ, Uuid, Time, String, str_eq, Bool, ◌&&◌, Option, none, some, List, [], ◌∷◌, ◌++◌, find_by,
  if◌then◌else◌,
}
use rvf_malinois.Realtime.Events.{
  WrittenOutcome, PendingRealtimeEmit, telemetry_reading_accepted, live_reading_updated,
  alarm_event_created, created as created_outcome, updated as updated_outcome,
}

-- The arguments of `processSample`.
pub record SampleContext : Type 0 where
  pub sample : Sample
  pub sample_index : ℕ
  pub source : IntegrationSource
  pub correlation_id : Option String
  pub now : Time

-- What the earlier sections have resolved and normalized.
pub record Normalized : Type 0 where
  pub mapping : IntegrationMapping
  pub sensor_id : Uuid
  pub canonical_tag_id : Uuid
  pub timestamp : Time
  pub value : Decimal

module _ (ctx : SampleContext) (n : Normalized) where
  abbrev pub sample_text : String
  sample_text = value_str ctx.sample.value

  unfoldable pub new_reading : Uuid → TelemetryReading
  new_reading id = record {
    id = id;
    tenant_id = ctx.source.tenant_id;
    unit_id = n.mapping.unit_id;
    sensor_id = n.sensor_id;
    canonical_tag_id = n.canonical_tag_id;
    integration_source_id = some ctx.source.id;
    timestamp = n.timestamp;
    value = n.value;
    engineering_unit = ctx.sample.engineering_unit;
    quality = ctx.sample.quality;
    source = ctx.source.kind;
    ingestion_id = ctx.sample.external_identifier;
    sequence = ctx.sample.sequence;
  }

  unfoldable pub accepted_emit : Uuid → PendingRealtimeEmit
  accepted_emit id = telemetry_reading_accepted (record {
    telemetry_reading_id = id;
    tenant_id = ctx.source.tenant_id;
    unit_id = n.mapping.unit_id;
    sensor_id = n.sensor_id;
    canonical_tag_id = n.canonical_tag_id;
    value = sample_text;
    engineering_unit = ctx.sample.engineering_unit;
    quality = ctx.sample.quality;
    timestamp = n.timestamp;
    source = ctx.source.kind;
    sequence = ctx.sample.sequence;
  })

  abbrev pub live_emit_of : Option Uuid → WrittenOutcome → PendingRealtimeEmit
  live_emit_of live_id outcome = live_reading_updated (record {
    live_reading_id = live_id;
    tenant_id = ctx.source.tenant_id;
    unit_id = n.mapping.unit_id;
    sensor_id = n.sensor_id;
    canonical_tag_id = n.canonical_tag_id;
    value = sample_text;
    engineering_unit = ctx.sample.engineering_unit;
    quality = good;
    timestamp = n.timestamp;
    source = ctx.source.kind;
    ingestion_timestamp = ctx.now;
    outcome = outcome;
  })

  -- Only a projection that wrote is announced.
  unfoldable pub live_emits : LiveReadingProjectionResult → List PendingRealtimeEmit
  live_emits (created id) = live_emit_of (some id) created_outcome ∷ []
  live_emits updated = live_emit_of none updated_outcome ∷ []
  live_emits _ = []

  abbrev pub alarm_emit_of : AlarmRuleEvaluation → RuleStatus → List PendingRealtimeEmit
  alarm_emit_of e (triggered event_id violated) =
      alarm_event_created (record {
        alarm_event_id = event_id;
        tenant_id = ctx.source.tenant_id;
        unit_id = n.mapping.unit_id;
        canonical_tag_id = n.canonical_tag_id;
        alarm_rule_id = e.rule_id;
        severity = e.severity;
        triggered_value = sample_text;
        threshold_violated = violated;
        state = active;
        first_triggered_at = n.timestamp;
      })
      ∷ []
  alarm_emit_of e _ = []

  unfoldable pub per_rule_emits : List AlarmRuleEvaluation → List PendingRealtimeEmit
  per_rule_emits [] = []
  per_rule_emits (e ∷ es) = alarm_emit_of e e.status ++ per_rule_emits es

  abbrev pub alarm_emits : AlarmEvaluationResult → List PendingRealtimeEmit
  alarm_emits (evaluated per_rule) = per_rule_emits per_rule
  alarm_emits _ = []

  unfoldable pub projection_input : Uuid → AcceptedTelemetryProjectionInput
  projection_input id = record {
    telemetry_reading_id = id;
    tenant_id = ctx.source.tenant_id;
    unit_id = n.mapping.unit_id;
    sensor_id = n.sensor_id;
    canonical_tag_id = n.canonical_tag_id;
    value = n.value;
    engineering_unit = ctx.sample.engineering_unit;
    quality = good;
    timestamp = n.timestamp;
    source = ctx.source.kind;
    ingestion_timestamp = ctx.now;
  }

  unfoldable pub alarm_input : Uuid → AcceptedTelemetryAlarmInput
  alarm_input id = record {
    telemetry_reading_id = id;
    tenant_id = ctx.source.tenant_id;
    unit_id = n.mapping.unit_id;
    sensor_id = n.sensor_id;
    canonical_tag_id = n.canonical_tag_id;
    value = n.value;
    engineering_unit = ctx.sample.engineering_unit;
    quality = good;
    timestamp = n.timestamp;
    source = ctx.source.kind;
  }

  -- `existing` and the sample carry the same reading.
  unfoldable pub identical : TelemetryReading → Bool
  identical existing =
      str_eq existing.engineering_unit ctx.sample.engineering_unit
      && same_quality existing.quality ctx.sample.quality
      && str_eq existing.source ctx.source.kind
      && str_eq existing.value sample_text

  unfoldable pub conflict_args : QuarantineArgs
  conflict_args = record {
    reason = conflict_dedup;
    sample = ctx.sample;
    correlation_id = ctx.correlation_id;
    tenant_id = some ctx.source.tenant_id;
    integration_source_id = some ctx.source.id;
    integration_mapping_id = some n.mapping.id;
    unit_id = some n.mapping.unit_id;
    sensor_id = some n.sensor_id;
    canonical_tag_id = some n.canonical_tag_id;
  }

abbrev pub result_at : ℕ → Outcome → SampleResult
result_at index outcome = record { sample_index = index; outcome = outcome }

module _ (env : Env) (ctx : SampleContext) (n : Normalized) where
  unfoldable pub create_reading : M Uuid
  unfolding command next_id new_reading insert_reading
  create_reading = do id ← next_id env; command env (insert_reading (new_reading ctx n id))

  -- The steps of the transaction for a good sample, after the insert.
  unfoldable pub derive : Uuid → M (List PendingRealtimeEmit)
  unfolding update_from_accepted_telemetry evaluate live_emits per_rule_emits
  derive id = do
    projected ← update_from_accepted_telemetry env alone (projection_input ctx n id)
    alarms ← evaluate env (alarm_input ctx n id)
    pure (live_emits ctx n projected ++ alarm_emits ctx n alarms)

  -- The body of the transaction: the id of the row and the pending events.
  unfoldable pub body : M (Uuid × List PendingRealtimeEmit)
  unfolding create_reading derive
  body = do
    id ← create_reading
    derived ← if is_good ctx.sample.quality then derive id else pure []
    pure (id, accepted_emit ctx n id ∷ derived)

  unfoldable pub quarantine_conflict : M SampleResult
  unfolding write_quarantine
  quarantine_conflict = do
    id ← write_quarantine env (conflict_args ctx n)
    pure (result_at ctx.sample_index (conflict_quarantined id conflict_dedup))

  -- The comparison with the row that is found.
  unfoldable pub on_duplicate_of : Option TelemetryReading → M SampleResult
  unfolding identical quarantine_conflict
  on_duplicate_of none = quarantine_conflict
  on_duplicate_of (some row) =
      if identical ctx n row
      then pure (result_at ctx.sample_index duplicate)
      else quarantine_conflict

  unfoldable pub classify_dedup : M SampleResult
  unfolding query on_duplicate_of
  classify_dedup = do
    existing ← query env (λ db.
        find_by
          (is_existing ctx.source.id n.sensor_id n.canonical_tag_id n.timestamp ctx.sample.sequence)
          db.readings)
    on_duplicate_of existing

  -- The handler: only a unique violation is classified.
  unfoldable pub on_fault : Fault → M SampleResult
  unfolding classify_dedup
  on_fault unexpected = throw unexpected
  on_fault unique_violation = classify_dedup

  unfoldable pub store_sample : M SampleResult
  unfolding transaction body on_fault
  store_sample =
      attempt
        (do
          out ← transaction env body
          emit_many out.1
          pure (result_at ctx.sample_index (accepted out.0)))
        on_fault
