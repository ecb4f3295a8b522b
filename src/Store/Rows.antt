-- ===== src/Store/Rows.antt =====
-- The rows of apps/backend/prisma/schema.prisma that ingestion, projection and alarm evaluation read
-- and write. A `Decimal` is named by the text that its `toString()` gives. Columns that no modelled
-- code reads or writes, and those that it always leaves NULL, are left out.
use rvf_malinois.Prelude.{ℕ, Uuid, Time, String, Bool, true, false, Option, List}

abbrev pub Decimal : Type 0
Decimal = String

pub data Quality : Type 0 where
  good uncertain bad : Quality

abbrev pub is_good : Quality → Bool
is_good good = true
is_good _ = false

abbrev pub same_quality : Quality → Quality → Bool
same_quality good good = true
same_quality uncertain uncertain = true
same_quality bad bad = true
same_quality _ _ = false

pub record IntegrationSource : Type 0 where
  pub id : Uuid
  pub tenant_id : Uuid
  pub status : String
  pub kind : String

pub record IntegrationMapping : Type 0 where
  pub id : Uuid
  pub tenant_id : Uuid
  pub integration_source_id : Uuid
  pub external_identifier : String
  pub unit_id : Uuid
  pub sensor_id : Option Uuid
  pub canonical_tag_id : Option Uuid
  pub engineering_unit_override : Option String
  pub enabled : Bool

pub record Sensor : Type 0 where
  pub id : Uuid
  pub unit_id : Uuid

pub record SensorTagBinding : Type 0 where
  pub sensor_id : Uuid
  pub canonical_tag_id : Uuid
  pub effective_to : Option Time

pub record CanonicalTag : Type 0 where
  pub id : Uuid
  pub canonical_unit : String

pub record TelemetryReading : Type 0 where
  pub id : Uuid
  pub tenant_id : Uuid
  pub unit_id : Uuid
  pub sensor_id : Uuid
  pub canonical_tag_id : Uuid
  pub integration_source_id : Option Uuid
  pub timestamp : Time
  pub value : Decimal
  pub engineering_unit : String
  pub quality : Quality
  pub source : String
  pub ingestion_id : String
  pub sequence : Option ℕ

pub record LiveReading : Type 0 where
  pub id : Uuid
  pub tenant_id : Uuid
  pub unit_id : Uuid
  pub sensor_id : Uuid
  pub canonical_tag_id : Uuid
  pub latest_telemetry_reading_id : Uuid
  pub value : Decimal
  pub engineering_unit : String
  pub quality : Quality
  pub timestamp : Time
  pub source : String
  pub ingestion_timestamp : Time

pub data Severity : Type 0 where
  info warning critical : Severity

pub data ThresholdViolated : Type 0 where
  low_low low high high_high : ThresholdViolated

pub record AlarmRule : Type 0 where
  pub id : Uuid
  pub unit_id : Uuid
  pub canonical_tag_id : Uuid
  pub severity : Severity
  pub version : ℕ
  pub is_current : Bool
  pub enabled : Bool
  pub low_low_threshold : Option Decimal
  pub low_threshold : Option Decimal
  pub high_threshold : Option Decimal
  pub high_high_threshold : Option Decimal
  pub deadband : Option Decimal
  pub delay_seconds : Option ℕ
  pub message_template : Option String

-- The columns of a rule that its snapshot freezes.
pub record SnapshotRule : Type 0 where
  pub id : Uuid
  pub severity : Severity
  pub version : ℕ
  pub enabled : Bool
  pub low_low_threshold : Option Decimal
  pub low_threshold : Option Decimal
  pub high_threshold : Option Decimal
  pub high_high_threshold : Option Decimal
  pub deadband : Option Decimal
  pub delay_seconds : Option ℕ
  pub message_template : Option String

-- The JSON that freezes a rule and what triggered it.
pub record RuleSnapshot : Type 0 where
  pub rule : SnapshotRule
  pub threshold_violated : ThresholdViolated
  pub value : Decimal
  pub engineering_unit : String
  pub quality : Quality
  pub source : String
  pub timestamp : Time
  pub telemetry_reading_id : Uuid

pub data AlarmState : Type 0 where
  active acknowledged cleared : AlarmState

abbrev pub is_active : AlarmState → Bool
is_active active = true
is_active _ = false

pub record AlarmEvent : Type 0 where
  pub id : Uuid
  pub tenant_id : Uuid
  pub unit_id : Uuid
  pub canonical_tag_id : Uuid
  pub alarm_rule_id : Option Uuid
  pub severity : Severity
  pub triggered_value : Decimal
  pub threshold_violated : ThresholdViolated
  pub state : AlarmState
  pub first_triggered_at : Time
  pub rule_snapshot : RuleSnapshot

-- The reasons of `INGESTION_QUARANTINE_REASONS`.
pub data QuarantineReason : Type 0 where
  late_outside_window future_timestamp unknown_source unknown_mapping : QuarantineReason
  disabled_mapping unresolved_sensor unresolved_tag tenant_mismatch : QuarantineReason
  invalid_quality invalid_value unit_mismatch outside_envelope : QuarantineReason
  conflict_dedup inactive_context mapping_engine_failure : QuarantineReason

-- The free text, the raw payload and the metadata of a quarantine row are left out.
pub record IngestionError : Type 0 where
  pub id : Uuid
  pub tenant_id : Option Uuid
  pub integration_source_id : Option Uuid
  pub integration_mapping_id : Option Uuid
  pub unit_id : Option Uuid
  pub sensor_id : Option Uuid
  pub canonical_tag_id : Option Uuid
  pub external_identifier : String
  pub timestamp : Option Time
  pub reason : QuarantineReason
  pub quality : Quality
  pub engineering_unit : String
  pub value : Option Decimal
  pub correlation_id : Option String

pub record Db : Type 0 where
  pub sources : List IntegrationSource
  pub mappings : List IntegrationMapping
  pub sensors : List Sensor
  pub bindings : List SensorTagBinding
  pub tags : List CanonicalTag
  pub rules : List AlarmRule
  pub readings : List TelemetryReading
  pub live : List LiveReading
  pub events : List AlarmEvent
  pub errors : List IngestionError
