-- ===== src/Web/Operations.antt =====
-- apps/web/components/operations/viewModel.ts, the badge of a unit, and alarmSummary.ts, the summary
-- in the header. `String(count)` is the parameter `show`.
mod Tests
pub mod Badge
pub mod Summary
use Prim.Native.String.{◌++◌ as ◌+++◌}
use rvf_malinois.Web.Models.{
  Platform, JobId, CanonicalTag, ActiveJobSnapshot, FrozenSensorMapping, TelemetryReading,
  AlarmState, TelemetryStatus,
}
use rvf_malinois.Web.Evaluator.{evaluate_reading, higher}
use rvf_malinois.Web.Stale.{compute_stale_from_snapshot}
use rvf_malinois.Web.Selectors.{ts_of, is_silent}
use rvf_malinois.Web.TelemetryStore.{TelemetryStore, get_latest_reading}
use rvf_malinois.Prelude.{
  ℕ, zero, suc, ◌+◌, ◌==◌, ltb, leb, String, Bool, true, false, not, ◌&&◌, ◌||◌, Time,
  if◌then◌else◌, Option, none, some, List, [], ◌∷◌, lookup, map,
}

pub data UnitBadgeStatus : Type 0 where
  testing alarm degraded offline : UnitBadgeStatus

pub record TagViewState : Type 0 where
  pub alarm : AlarmState
  pub stale : TelemetryStatus

pub record UnitBadgeRollup : Type 0 where
  pub status : UnitBadgeStatus
  pub worst_alarm : AlarmState
  pub stale_count : ℕ
  pub live_count : ℕ
  pub enabled_count : ℕ

-- The variables of the loop.
pub record Rollup : Type 0 where
  pub worst : AlarmState
  pub stale_count : ℕ
  pub live_count : ℕ
  pub enabled_count : ℕ

abbrev pub is_process_alarm : AlarmState → Bool
is_process_alarm AlarmState.alarm_high = true
is_process_alarm AlarmState.alarm_low = true
is_process_alarm _ = false

abbrev pub is_disabled : AlarmState → Bool
is_disabled AlarmState.disabled = true
is_disabled _ = false

abbrev pub is_no_data : AlarmState → Bool
is_no_data AlarmState.no_data = true
is_no_data _ = false

abbrev pub is_reporting : TagViewState → Bool
is_reporting v = not (is_silent v.stale) && not (is_no_data v.alarm)

-- The body of the loop.
unfoldable pub roll_up_tag : Option TagViewState → Rollup → Rollup
unfolding higher
roll_up_tag none r = record r {
  enabled_count = r.enabled_count + 1;
  stale_count = r.stale_count + 1;
}
roll_up_tag (some v) r =
    if is_disabled v.alarm
    then r
    else if is_reporting v
    then (record r {
      enabled_count = r.enabled_count + 1;
      worst = higher r.worst v.alarm;
      live_count = r.live_count + 1;
    })
    else (record r {
      enabled_count = r.enabled_count + 1;
      worst = higher r.worst v.alarm;
      stale_count = r.stale_count + 1;
    })

unfoldable pub roll_up_each : List String → List (String × TagViewState) → Rollup → Rollup
unfolding roll_up_tag
roll_up_each [] by_tag r = r
roll_up_each (k ∷ ks) by_tag r = roll_up_each ks by_tag (roll_up_tag (lookup k by_tag) r)

unfoldable pub badge_of : Rollup → UnitBadgeStatus
badge_of r =
    if is_process_alarm r.worst
    then UnitBadgeStatus.alarm
    else if r.enabled_count == 0 || r.live_count == 0
    then UnitBadgeStatus.offline
    else if ltb 0 r.stale_count
    then UnitBadgeStatus.degraded
    else UnitBadgeStatus.testing

abbrev pub keys_of : List (String × TagViewState) → List String
keys_of [] = []
keys_of ((k, v) ∷ rest) = k ∷ keys_of rest

-- `tagsToConsider`, or the keys of `byTag`
abbrev pub considered : Option (List CanonicalTag) → List (String × TagViewState) → List String
considered (some tags) by_tag = tags
considered none by_tag = keys_of by_tag

abbrev pub no_tags : Rollup
no_tags = record { worst = AlarmState.normal; stale_count = 0; live_count = 0; enabled_count = 0 }

unfoldable pub roll_up_unit_status :
    List (String × TagViewState) → Option (List CanonicalTag) → UnitBadgeRollup
unfolding roll_up_each badge_of
roll_up_unit_status by_tag tags =
    let r = roll_up_each (considered tags by_tag) by_tag no_tags in
    record {
      status = badge_of r;
      worst_alarm = r.worst;
      stale_count = r.stale_count;
      live_count = r.live_count;
      enabled_count = r.enabled_count;
    }

pub data Tone : Type 0 where
  normal warn alarm stale : Tone

pub record Counts : Type 0 where
  pub alarm_count : ℕ
  pub warning_count : ℕ
  pub stale_count : ℕ

pub record AlarmSummary : Type 0 where
  pub counts : Counts
  pub headline : String
  pub tone : Tone

abbrev pub is_warning : AlarmState → Bool
is_warning AlarmState.warning_high = true
is_warning AlarmState.warning_low = true
is_warning _ = false

unfoldable pub count_state : AlarmState → Counts → Counts
count_state state c =
    if is_process_alarm state
    then (record c { alarm_count = c.alarm_count + 1 })
    else if is_warning state
    then (record c { warning_count = c.warning_count + 1 })
    else c

-- `count === 1 ? one : many`
abbrev pub noun : ℕ → String → String → String
noun n one many = if n == 1 then one else many

unfoldable pub format_headline : (ℕ → String) → Counts → String
format_headline show s =
    if ltb 0 s.alarm_count
    then (if ltb 0 s.warning_count
        then show s.alarm_count
          +++ (" active "
              +++ (noun s.alarm_count "alarm" "alarms"
                  +++ (" · "
                      +++ (show s.warning_count +++ (" warning" +++ noun s.warning_count "" "s")))))
        else show s.alarm_count +++ (" active " +++ noun s.alarm_count "alarm" "alarms"))
    else if ltb 0 s.warning_count
    then show s.warning_count +++ (" warning" +++ noun s.warning_count "" "s")
    else if ltb 0 s.stale_count
    then show s.stale_count +++ (" stale signal" +++ noun s.stale_count "" "s")
    else "No active alarms"

unfoldable pub tone_of : Counts → Tone
tone_of c =
    if ltb 0 c.alarm_count
    then Tone.alarm
    else if ltb 0 c.warning_count
    then Tone.warn
    else if ltb 0 c.stale_count
    then Tone.stale
    else Tone.normal

module _ (js : Platform) (store : TelemetryStore) where
  -- `computeStateForTag` where the reading of the tag is `reading`.
  unfoldable pub state_of_reading :
      ActiveJobSnapshot → CanonicalTag → Time → Option TelemetryReading → AlarmState
  state_of_reading job tag now none = AlarmState.no_data
  state_of_reading job tag now (some reading) =
      if is_silent
        (compute_stale_from_snapshot js job.job_id tag (some reading.ts) now job.snapshot).status
      then AlarmState.no_data
      else (evaluate_reading js reading job.snapshot (js.to_iso now)).state

  unfoldable pub compute_state_for_tag : ActiveJobSnapshot → Bool → CanonicalTag → Time → AlarmState
  unfolding state_of_reading
  compute_state_for_tag job enabled tag now =
      if enabled
      then state_of_reading job tag now (get_latest_reading job.job_id tag store)
      else AlarmState.disabled

  -- The end of the body: `if (!reading) continue`, and the count of the state.
  unfoldable pub count_reading :
      ActiveJobSnapshot → CanonicalTag → Time → Option TelemetryReading → Counts → Counts
  unfolding count_state compute_state_for_tag
  count_reading job tag now none c = c
  count_reading job tag now (some reading) c =
      count_state (compute_state_for_tag job true tag now) c

  unfoldable pub count_mapping : ActiveJobSnapshot → Time → FrozenSensorMapping → Counts → Counts
  unfolding count_reading
  count_mapping job now mapping c =
      let tag = mapping.canonical_tag in
      let reading = get_latest_reading job.job_id tag store in
      if mapping.enabled
      then (if is_silent
            (compute_stale_from_snapshot js job.job_id tag (ts_of reading) now job.snapshot).status
          then (record c { stale_count = c.stale_count + 1 })
          else count_reading job tag now reading c)
      else c

  unfoldable pub count_mappings :
      ActiveJobSnapshot → Time → List FrozenSensorMapping → Counts → Counts
  unfolding count_mapping
  count_mappings job now [] c = c
  count_mappings job now (m ∷ ms) c = count_mappings job now ms (count_mapping job now m c)

  unfoldable pub count_jobs : Time → List ActiveJobSnapshot → Counts → Counts
  unfolding count_mappings
  count_jobs now [] c = c
  count_jobs now (job ∷ jobs) c =
      count_jobs now jobs (count_mappings job now job.snapshot.sensors c)

  unfoldable pub summarize_alarms : (ℕ → String) → List ActiveJobSnapshot → Time → AlarmSummary
  unfolding count_jobs format_headline tone_of
  summarize_alarms show jobs now =
      let c =
        count_jobs now jobs (record { alarm_count = 0; warning_count = 0; stale_count = 0 }) in
      record { counts = c; headline = format_headline show c; tone = tone_of c }
