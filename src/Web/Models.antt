-- ===== src/Web/Models.antt =====
-- apps/web/lib/telemetry/models.ts, apps/web/lib/jobs/types.ts, apps/web/lib/alarms/types.ts and
-- the calls that the web code makes of the JavaScript runtime.
use rvf_malinois.Prelude.{Time, String, Bool, Option, List, ℕ}

-- A JavaScript number is its 64-bit pattern; how the language reads it is `Platform`'s.
abbrev pub Number : Type 0
Number = ℕ

abbrev pub JobId : Type 0
JobId = String

abbrev pub CanonicalTag : Type 0
CanonicalTag = String

pub record Platform : Type 0 where
  -- `a >= b`, `a <= b` and `a === b`
  pub number_ge : Number → Number → Bool
  pub number_le : Number → Number → Bool
  pub number_eq : Number → Number → Bool
  -- `Date.parse(text)`, none for NaN
  pub parse_date : String → Option Time
  -- `new Date(ms).toISOString()`
  pub to_iso : Time → String

pub data DataQuality : Type 0 where
  good estimated uncertain bad : DataQuality

pub record TelemetryReading : Type 0 where
  pub ts : String
  pub job_id : JobId
  pub tag : CanonicalTag
  pub value : Option Number
  pub unit : String
  pub quality : DataQuality
  pub sensor_id : Option String
  pub seq : Option Number

pub record TelemetryFrame : Type 0 where
  pub ts : String
  pub job_id : JobId
  pub readings : List TelemetryReading

pub data WireAlarmKind : Type 0 where
  normal warning_low warning_high alarm_low alarm_high no_data : WireAlarmKind

-- `thresholdsSource` is the same text in each.
pub record AlarmEvent : Type 0 where
  pub job_id : JobId
  pub tag : CanonicalTag
  pub ts : String
  pub state : WireAlarmKind
  pub value : Option Number
  pub threshold : Option Number

pub data CommunicationStatus : Type 0 where
  connected : String → CommunicationStatus
  reconnecting disconnected : Option String → CommunicationStatus

pub data TelemetryStatus : Type 0 where
  live delayed stale offline : TelemetryStatus

pub record StaleState : Type 0 where
  pub job_id : JobId
  pub tag : CanonicalTag
  pub status : TelemetryStatus
  pub last_ts : Option String
  -- in thousandths of a second
  pub age_sec : Option ℕ

pub record SensorReading : Type 0 where
  pub job_id : JobId
  pub tag : CanonicalTag
  pub value : Option Number
  pub unit : String
  pub quality : DataQuality
  pub ts : Option String
  pub status : TelemetryStatus

pub record VariableThresholds : Type 0 where
  pub warning_low : Option Number
  pub warning_high : Option Number
  pub alarm_low : Option Number
  pub alarm_high : Option Number
  pub unit : String
  pub precision : Number

pub record FrozenSensorMapping : Type 0 where
  pub sensor_id : String
  pub canonical_tag : CanonicalTag
  pub pid_instrument_tag : Option String
  pub modbus_register : Option String
  pub enabled : Bool

-- The boundaries of the stale detector, in thousandths of the source's seconds.
pub record StaleTimings : Type 0 where
  pub delayed_after_sec : ℕ
  pub stale_after_sec : ℕ
  pub offline_after_sec : ℕ

pub record StaleTimingsEntry : Type 0 where
  pub delayed_after_sec : Option ℕ
  pub stale_after_sec : Option ℕ
  pub offline_after_sec : Option ℕ

-- An object with a key per tag is the function that reads it, none for a key that is missing.
pub record CommissioningSnapshot : Type 0 where
  pub snapshot_id : String
  pub job_id : JobId
  pub unit_id : String
  pub well_id : String
  pub tenant_id : String
  pub taken_at : String
  pub sensors : List FrozenSensorMapping
  pub effective_thresholds : CanonicalTag → Option VariableThresholds
  pub stale_timings : CanonicalTag → Option StaleTimingsEntry

pub record ActiveJobSnapshot : Type 0 where
  pub job_id : JobId
  pub tenant_id : String
  pub well_id : String
  pub unit_id : String
  pub started_at : String
  pub closed_at : Option String
  pub snapshot : CommissioningSnapshot

pub data NormalizedTelemetryMessage : Type 0 where
  reading : TelemetryReading → NormalizedTelemetryMessage
  frame : TelemetryFrame → NormalizedTelemetryMessage
  alarm : AlarmEvent → NormalizedTelemetryMessage
  snapshot_update : CommissioningSnapshot → NormalizedTelemetryMessage
  heartbeat : String → NormalizedTelemetryMessage
  connection : CommunicationStatus → NormalizedTelemetryMessage

-- `AlarmState` of alarms/types.ts: the band of a value, or why it has none.
pub data AlarmState : Type 0 where
  normal warning_low warning_high alarm_low alarm_high no_data disabled : AlarmState

pub data ThresholdHit : Type 0 where
  warning_low warning_high alarm_low alarm_high : ThresholdHit

-- `thresholdsSource` is the same text in each.
pub record AlarmEvaluationResult : Type 0 where
  pub job_id : JobId
  pub tag : CanonicalTag
  pub state : AlarmState
  pub value : Option Number
  pub threshold_hit : Option ThresholdHit
  pub quality : DataQuality
  pub evaluated_at : String
