-- ===== src/Web/AlarmCenter.antt =====
-- apps/web/lib/alarms/center/types.ts and apps/web/lib/alarms/center/severity.ts
pub mod Findings
pub mod Derive
pub mod Tick
pub mod Counts
pub mod Keys
pub mod OneOpen
pub mod Order
mod Tests
use rvf_malinois.Prelude.{Option, none, some, String, ℕ, List}
use rvf_malinois.Web.Models.{
  JobId, CanonicalTag, Number, DataQuality, TelemetryStatus, ThresholdHit,
}
use Prim.Native.String.{◌++◌}

pub data Severity : Type 0 where
  urgent high medium low : Severity

pub data Lifecycle : Type 0 where
  active acked cleared : Lifecycle

pub data SourceType : Type 0 where
  process data_quality communication : SourceType

-- `AlarmCenterEvaluatedState`
pub data EvaluatedState : Type 0 where
  alarm_high alarm_low warning_high warning_low no_data stale offline : EvaluatedState

pub record LiveAlarmEvent : Type 0 where
  pub id : String
  pub job_id : JobId
  pub well_id : String
  pub unit_id : String
  pub tag : CanonicalTag
  pub tag_label : String
  pub severity : Severity
  pub source : SourceType
  pub lifecycle : Lifecycle
  pub evaluated_state : EvaluatedState
  pub value : Option Number
  pub unit : String
  pub threshold_value : Option Number
  pub threshold_hit : Option ThresholdHit
  pub quality : DataQuality
  pub telemetry_status : TelemetryStatus
  pub first_seen_at : String
  pub last_updated_at : String
  pub acked_by : Option String
  pub acked_at : Option String
  pub cleared_at : Option String

pub record Summary : Type 0 where
  pub urgent : ℕ
  pub high : ℕ
  pub medium : ℕ
  pub low : ℕ
  pub acked : ℕ
  pub cleared : ℕ
  pub total_events : ℕ
  pub data_quality_active : ℕ
  pub communication_active : ℕ
  pub active_unacked : ℕ
  pub active_total : ℕ
  pub ack_pct : ℕ

pub record AlarmCenterSnapshot : Type 0 where
  pub events : List LiveAlarmEvent
  pub summary : Summary
  pub generated_at : String

unfoldable pub severity_for : EvaluatedState → Severity
severity_for alarm_high = Severity.urgent
severity_for alarm_low = Severity.urgent
severity_for warning_high = Severity.high
severity_for warning_low = Severity.high
severity_for offline = Severity.high
severity_for no_data = Severity.medium
severity_for stale = Severity.medium

unfoldable pub source_for : EvaluatedState → SourceType
source_for alarm_high = process
source_for alarm_low = process
source_for warning_high = process
source_for warning_low = process
source_for no_data = data_quality
source_for stale = communication
source_for offline = communication

unfoldable pub title_for : EvaluatedState → String → String
title_for alarm_high label = "High Alarm — " ++ label
title_for alarm_low label = "Low Alarm — " ++ label
title_for warning_high label = "High Warning — " ++ label
title_for warning_low label = "Low Warning — " ++ label
title_for no_data label = "Data Quality Bad — " ++ label
title_for stale label = "Stale Signal — " ++ label
title_for offline label = "Offline Signal — " ++ label

-- The text of a state, as it stands in an event's id.
abbrev pub state_text : EvaluatedState → String
state_text alarm_high = "alarm_high"
state_text alarm_low = "alarm_low"
state_text warning_high = "warning_high"
state_text warning_low = "warning_low"
state_text no_data = "no_data"
state_text stale = "stale"
state_text offline = "offline"
