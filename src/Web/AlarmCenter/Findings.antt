-- ===== src/Web/AlarmCenter/Findings.antt =====
-- The findings of apps/web/lib/alarms/center/derive.ts: what is wrong with each tag of each job.
use rvf_malinois.Prelude.{Option, none, some, String, List, [], ◌∷◌, Time, if◌then◌else◌, assign}
use rvf_malinois.Web.Models.{
  Platform, Number, JobId, CanonicalTag, TelemetryReading, TelemetryStatus, live, ThresholdHit,
  VariableThresholds, AlarmState, FrozenSensorMapping, ActiveJobSnapshot,
}
use rvf_malinois.Web.AlarmCenter.{EvaluatedState}
use rvf_malinois.Web.Stale.{compute_stale_from_snapshot}
use rvf_malinois.Web.Evaluator.{evaluate_reading, mapping_of, is_enabled}
use rvf_malinois.Web.Selectors.{ts_of}
use rvf_malinois.Web.TelemetryStore.{TelemetryStore, get_latest_reading}
use Prim.Native.String.{◌++◌}

pub record PerTagFinding : Type 0 where
  pub job : ActiveJobSnapshot
  pub tag : CanonicalTag
  pub evaluated_state : Option EvaluatedState
  pub reading : Option TelemetryReading
  pub threshold_hit : Option ThresholdHit
  pub threshold_value : Option Number
  pub telemetry_status : TelemetryStatus
  pub unit : String

-- `tagKey` of derive.ts
unfoldable pub center_key : JobId → CanonicalTag → String
center_key job_id tag = job_id ++ ("::" ++ tag)

-- `thresholds[hit]`
abbrev pub bound_of : VariableThresholds → ThresholdHit → Option Number
bound_of t ThresholdHit.warning_low = t.warning_low
bound_of t ThresholdHit.warning_high = t.warning_high
bound_of t ThresholdHit.alarm_low = t.alarm_low
bound_of t ThresholdHit.alarm_high = t.alarm_high

unfoldable pub threshold_value_for : Option VariableThresholds → Option ThresholdHit → Option Number
threshold_value_for none hit = none
threshold_value_for (some t) none = none
threshold_value_for (some t) (some hit) = bound_of t hit

abbrev pub band_state : AlarmState → Option EvaluatedState
band_state AlarmState.alarm_high = some EvaluatedState.alarm_high
band_state AlarmState.alarm_low = some EvaluatedState.alarm_low
band_state AlarmState.warning_high = some EvaluatedState.warning_high
band_state AlarmState.warning_low = some EvaluatedState.warning_low
band_state AlarmState.no_data = some EvaluatedState.no_data
band_state AlarmState.normal = none
band_state AlarmState.disabled = none

-- A signal that is silent has its own state, whatever its last value was.
abbrev pub silent_state : TelemetryStatus → Option EvaluatedState
silent_state TelemetryStatus.live = none
silent_state TelemetryStatus.delayed = none
silent_state TelemetryStatus.stale = some EvaluatedState.stale
silent_state TelemetryStatus.offline = some EvaluatedState.offline

abbrev pub or_else {ℓ} : {A : Type ℓ} → Option A → Option A → Option A
or_else none b = b
or_else (some a) b = some a

unfoldable pub evaluated_state_from : AlarmState → TelemetryStatus → Option EvaluatedState
evaluated_state_from state status = or_else (silent_state status) (band_state state)

-- `thresholds?.unit ?? ''` and `reading?.unit ?? thresholds?.unit ?? ''`
abbrev pub threshold_unit : Option VariableThresholds → String
threshold_unit none = ""
threshold_unit (some t) = t.unit

abbrev pub unit_of : Option TelemetryReading → Option VariableThresholds → String
unit_of none t = threshold_unit t
unit_of (some r) t = r.unit

module _ (js : Platform) (store : TelemetryStore) where
  -- With a signal that is not silent.
  unfoldable pub evaluate_heard :
      ActiveJobSnapshot
      → CanonicalTag
      → Time
      → TelemetryStatus
      → Option VariableThresholds
      → Option TelemetryReading
      → PerTagFinding
  unfolding threshold_value_for evaluated_state_from
  evaluate_heard job tag now status thresholds none = record {
    job = job;
    tag = tag;
    evaluated_state = none;
    reading = none;
    threshold_hit = none;
    threshold_value = none;
    telemetry_status = status;
    unit = threshold_unit thresholds;
  }
  evaluate_heard job tag now status thresholds (some r) =
      let result = evaluate_reading js r job.snapshot (js.to_iso now) in
      record {
        job = job;
        tag = tag;
        evaluated_state = evaluated_state_from result.state status;
        reading = some r;
        threshold_hit = result.threshold_hit;
        threshold_value = threshold_value_for thresholds result.threshold_hit;
        telemetry_status = status;
        unit = r.unit;
      }

  unfoldable pub on_silence :
      ActiveJobSnapshot
      → CanonicalTag
      → Time
      → TelemetryStatus
      → Option VariableThresholds
      → Option TelemetryReading
      → Option EvaluatedState
      → PerTagFinding
  on_silence job tag now status thresholds reading (some state) = record {
    job = job;
    tag = tag;
    evaluated_state = some state;
    reading = reading;
    threshold_hit = none;
    threshold_value = none;
    telemetry_status = status;
    unit = unit_of reading thresholds;
  }
  on_silence job tag now status thresholds reading none =
      evaluate_heard job tag now status thresholds reading

  unfoldable pub evaluate_one : ActiveJobSnapshot → CanonicalTag → Time → PerTagFinding
  evaluate_one job tag now =
      let thresholds = job.snapshot.effective_thresholds tag in
      let reading = get_latest_reading job.job_id tag store in
      let status =
        (compute_stale_from_snapshot js job.job_id tag (ts_of reading) now job.snapshot).status in
      if is_enabled (mapping_of tag job.snapshot)
      then on_silence job tag now status thresholds reading (silent_state status)
      else record {
        job = job;
        tag = tag;
        evaluated_state = none;
        reading = none;
        threshold_hit = none;
        threshold_value = none;
        telemetry_status = live;
        unit = threshold_unit thresholds;
      }

  -- The inner and the outer loop, which fill the map `out`.
  unfoldable pub findings_for_job :
      ActiveJobSnapshot
      → Time
      → List FrozenSensorMapping
      → List (String × PerTagFinding)
      → List (String × PerTagFinding)
  findings_for_job job now [] out = out
  findings_for_job job now (m ∷ ms) out =
      findings_for_job job now ms
        (assign (center_key job.job_id m.canonical_tag) (evaluate_one job m.canonical_tag now) out)

  unfoldable pub findings_from :
      List ActiveJobSnapshot → Time → List (String × PerTagFinding) → List (String × PerTagFinding)
  findings_from [] now out = out
  findings_from (job ∷ jobs) now out =
      findings_from jobs now (findings_for_job job now job.snapshot.sensors out)

  unfoldable pub findings_for_jobs : List ActiveJobSnapshot → Time → List (String × PerTagFinding)
  findings_for_jobs jobs now = findings_from jobs now []
