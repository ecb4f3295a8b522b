-- ===== src/Web/Selectors.antt =====
-- apps/web/lib/realtime/telemetrySelectors.ts
pub mod Honesty
use rvf_malinois.Prelude.{
  Option, none, some, List, [], ◌∷◌, String, Bool, true, false, Time, if◌then◌else◌, ◌||◌, assign,
}
use rvf_malinois.Web.Models.{
  Platform, JobId, CanonicalTag, TelemetryReading, TelemetryStatus, StaleState, SensorReading,
  CommissioningSnapshot, AlarmState, AlarmEvaluationResult, FrozenSensorMapping, live, delayed,
  stale, offline, disabled, no_data,
}
use rvf_malinois.Web.Evaluator.{evaluate_reading}
use rvf_malinois.Web.Stale.{compute_stale_from_snapshot}
use rvf_malinois.Web.TelemetryStore.{TelemetryStore, get_latest_reading}

-- What `UnitTelemetrySnapshot` has for a tag.
pub record UnitTelemetryEntry : Type 0 where
  pub reading : Option TelemetryReading
  pub alarm : AlarmState
  pub stale : TelemetryStatus

-- `reading?.ts`
abbrev pub ts_of : Option TelemetryReading → Option String
ts_of none = none
ts_of (some reading) = some reading.ts

-- `status === 'stale' || status === 'offline'`
abbrev pub is_silent : TelemetryStatus → Bool
is_silent live = false
is_silent delayed = false
is_silent stale = true
is_silent offline = true

module _ (js : Platform) (store : TelemetryStore) (snapshot : CommissioningSnapshot)
    (job_id : JobId) where
  unfoldable pub select_stale_state : CanonicalTag → Time → StaleState
  select_stale_state tag now =
      compute_stale_from_snapshot js job_id tag (ts_of (get_latest_reading job_id tag store)) now
        snapshot

  unfoldable pub live_value_of :
      CanonicalTag → Time → Option TelemetryReading → Option SensorReading
  live_value_of tag now none = none
  live_value_of tag now (some reading) = some (record {
    job_id = job_id;
    tag = tag;
    value = reading.value;
    unit = reading.unit;
    quality = reading.quality;
    ts = some reading.ts;
    status = (compute_stale_from_snapshot js job_id tag (some reading.ts) now snapshot).status;
  })

  unfoldable pub select_live_value : CanonicalTag → Time → Option SensorReading
  select_live_value tag now = live_value_of tag now (get_latest_reading job_id tag store)

  unfoldable pub alarm_state_of :
      CanonicalTag → Time → Option TelemetryReading → Option AlarmEvaluationResult
  alarm_state_of tag now none = none
  alarm_state_of tag now (some reading) =
      let signal = compute_stale_from_snapshot js job_id tag (some reading.ts) now snapshot in
      if is_silent signal.status
      then some (record {
        job_id = job_id;
        tag = tag;
        state = AlarmState.no_data;
        value = reading.value;
        threshold_hit = none;
        quality = reading.quality;
        evaluated_at = js.to_iso now;
      })
      else some (evaluate_reading js reading snapshot (js.to_iso now))

  unfoldable pub select_alarm_state : CanonicalTag → Time → Option AlarmEvaluationResult
  select_alarm_state tag now = alarm_state_of tag now (get_latest_reading job_id tag store)

  -- The body of the loop of `selectUnitTelemetrySnapshot`, for a sensor with its latest reading.
  unfoldable pub alarm_of_mapping :
      FrozenSensorMapping → TelemetryStatus → Option TelemetryReading → Time → AlarmState
  alarm_of_mapping mapping status none now =
      if mapping.enabled then AlarmState.no_data else AlarmState.disabled
  alarm_of_mapping mapping status (some reading) now =
      if mapping.enabled
      then (if is_silent status
          then AlarmState.no_data
          else (evaluate_reading js reading snapshot (js.to_iso now)).state)
      else AlarmState.disabled

  unfoldable pub unit_entries :
      Time
      → List FrozenSensorMapping
      → List (String × UnitTelemetryEntry)
      → List (String × UnitTelemetryEntry)
  unit_entries now [] by_tag = by_tag
  unit_entries now (mapping ∷ mappings) by_tag =
      let tag = mapping.canonical_tag in
      let reading = get_latest_reading job_id tag store in
      let status = (select_stale_state tag now).status in
      unit_entries now mappings (
        assign tag
          (record {
            reading = reading;
            alarm = alarm_of_mapping mapping status reading now;
            stale = status;
          })
          by_tag)

  -- The entries of `byTag`; the snapshot also repeats the job and the time.
  unfoldable pub select_unit_telemetry_snapshot : Time → List (String × UnitTelemetryEntry)
  select_unit_telemetry_snapshot now = unit_entries now snapshot.sensors []
