-- ===== src/Web/Evaluator.antt =====
-- apps/web/lib/alarms/evaluator.ts and apps/web/lib/alarms/priority.ts
pub mod Bounds
use rvf_malinois.Web.Models.{
  Platform, Number, TelemetryReading, DataQuality, good, estimated, uncertain, bad, AlarmState,
  AlarmEvaluationResult, ThresholdHit, VariableThresholds, CommissioningSnapshot,
  FrozenSensorMapping, CanonicalTag,
}
use rvf_malinois.Web.Models
use rvf_malinois.Prelude.{
  Option, none, some, String, Bool, true, false, ℕ, leb, if◌then◌else◌, ◌&&◌, ◌||◌, str_eq, find_by,
}

unfoldable pub build_result :
    TelemetryReading → AlarmState → Option ThresholdHit → String → AlarmEvaluationResult
build_result reading state hit now_iso = record {
  job_id = reading.job_id;
  tag = reading.tag;
  state = state;
  value = reading.value;
  threshold_hit = hit;
  quality = reading.quality;
  evaluated_at = now_iso;
}

-- `snapshot.sensors.find((s) => s.canonicalTag === tag)`
abbrev pub mapping_of : CanonicalTag → CommissioningSnapshot → Option FrozenSensorMapping
mapping_of tag snapshot = find_by (λ s. str_eq s.canonical_tag tag) snapshot.sensors

-- `mapping?.enabled`
abbrev pub is_enabled : Option FrozenSensorMapping → Bool
is_enabled none = false
is_enabled (some mapping) = mapping.enabled

abbrev pub is_bad : DataQuality → Bool
is_bad bad = true
is_bad good = false
is_bad estimated = false
is_bad uncertain = false

-- `bound !== undefined && compare(bound)`
abbrev pub reaches : (Number → Bool) → Option Number → Bool
reaches compare none = false
reaches compare (some bound) = compare bound

module _ (js : Platform) where
  -- The comparisons of a value with the bounds of its tag.
  unfoldable pub compare_bounds :
      TelemetryReading → Number → VariableThresholds → String → AlarmEvaluationResult
  unfolding build_result
  compare_bounds reading v thresholds now_iso =
      if reaches (js.number_ge v) thresholds.alarm_high
      then build_result reading AlarmState.alarm_high (some ThresholdHit.alarm_high) now_iso
      else if reaches (js.number_le v) thresholds.alarm_low
      then build_result reading AlarmState.alarm_low (some ThresholdHit.alarm_low) now_iso
      else if reaches (js.number_ge v) thresholds.warning_high
      then build_result reading AlarmState.warning_high (some ThresholdHit.warning_high) now_iso
      else if reaches (js.number_le v) thresholds.warning_low
      then build_result reading AlarmState.warning_low (some ThresholdHit.warning_low) now_iso
      else build_result reading AlarmState.normal none now_iso

  unfoldable pub on_thresholds :
      TelemetryReading → Number → Option VariableThresholds → String → AlarmEvaluationResult
  unfolding build_result compare_bounds
  on_thresholds reading v none now_iso = build_result reading AlarmState.disabled none now_iso
  on_thresholds reading v (some thresholds) now_iso = compare_bounds reading v thresholds now_iso

  -- The gate on a value that is null.
  unfoldable pub on_value :
      TelemetryReading → Option Number → Option VariableThresholds → String → AlarmEvaluationResult
  unfolding build_result on_thresholds
  on_value reading none thresholds now_iso = build_result reading AlarmState.no_data none now_iso
  on_value reading (some v) thresholds now_iso = on_thresholds reading v thresholds now_iso

  -- `options.nowIso` is given by every caller.
  unfoldable pub evaluate_reading :
      TelemetryReading → CommissioningSnapshot → String → AlarmEvaluationResult
  unfolding build_result on_value
  evaluate_reading reading snapshot now_iso =
      if is_enabled (mapping_of reading.tag snapshot)
      then (if is_bad reading.quality
          then build_result reading AlarmState.no_data none now_iso
          else on_value reading reading.value (snapshot.effective_thresholds reading.tag) now_iso)
      else build_result reading AlarmState.disabled none now_iso

unfoldable pub rank : AlarmState → ℕ
rank AlarmState.alarm_high = 5
rank AlarmState.alarm_low = 5
rank AlarmState.warning_high = 3
rank AlarmState.warning_low = 3
rank AlarmState.no_data = 1
rank AlarmState.disabled = 0
rank AlarmState.normal = 0

unfoldable pub higher : AlarmState → AlarmState → AlarmState
unfolding rank
higher a b = if leb (rank b) (rank a) then a else b
