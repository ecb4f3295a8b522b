-- ===== src/Telemetry/Ingestion/Quarantine.antt =====
-- The quarantine writes of telemetry-ingestion.service.ts.
use rvf_malinois.Telemetry.Ingestion.Contracts.{
  rejected_quarantined, SampleResult, value_str, Sample,
}
use rvf_malinois.Store.Rows.{IngestionError, Decimal, QuarantineReason}
use rvf_malinois.Store.Effects.{or_unexpected, pure, M, command, next_id, Env, ◌>>=◌}
use rvf_malinois.Prelude.{ℕ, Uuid, String, Option, none, some, ◌∷◌, if◌then◌else◌, ok}

pub record QuarantineArgs : Type 0 where
  pub reason : QuarantineReason
  pub sample : Sample
  pub correlation_id : Option String
  pub tenant_id : Option Uuid
  pub integration_source_id : Option Uuid
  pub integration_mapping_id : Option Uuid
  pub unit_id : Option Uuid
  pub sensor_id : Option Uuid
  pub canonical_tag_id : Option Uuid

module _ (env : Env) where
  -- The value is stored only if it is numeric.
  unfoldable pub quarantine_value : Sample → M (Option Decimal)
  quarantine_value sample =
      if env.is_finite (value_str sample.value)
      then (do value ← or_unexpected (env.decimal (value_str sample.value)); pure (some value))
      else pure none

  unfoldable pub new_error : Uuid → QuarantineArgs → Option Decimal → IngestionError
  new_error id args value = record {
    id = id;
    tenant_id = args.tenant_id;
    integration_source_id = args.integration_source_id;
    integration_mapping_id = args.integration_mapping_id;
    unit_id = args.unit_id;
    sensor_id = args.sensor_id;
    canonical_tag_id = args.canonical_tag_id;
    external_identifier = args.sample.external_identifier;
    timestamp = env.parse_date args.sample.timestamp;
    reason = args.reason;
    quality = args.sample.quality;
    engineering_unit = args.sample.engineering_unit;
    value = value;
    correlation_id = args.correlation_id;
  }

  unfoldable pub create_error : QuarantineArgs → Option Decimal → M Uuid
  unfolding command next_id new_error
  create_error args value = do
    id ← next_id env
    command env (λ db. ok (id, record db { errors = new_error id args value ∷ db.errors }))

  unfoldable pub write_quarantine : QuarantineArgs → M Uuid
  unfolding quarantine_value create_error
  write_quarantine args = do value ← quarantine_value args.sample; create_error args value

  unfoldable pub quarantine_result : ℕ → QuarantineArgs → M SampleResult
  unfolding write_quarantine
  quarantine_result index args = do
    id ← write_quarantine args
    pure (record { sample_index = index; outcome = rejected_quarantined id args.reason })
