-- ===== src/Web/Operations/Tests.antt =====
-- The badge of a unit with three tiles, and the summary of one job.
use rvf_malinois.Web.Models.{ActiveJobSnapshot, AlarmState, TelemetryStatus}
use rvf_malinois.Web.Tests.{js, snapshot, filled}
use rvf_malinois.Web.Operations.{
  UnitBadgeStatus, TagViewState, Tone, considered, roll_up_unit_status, summarize_alarms,
  is_process_alarm, is_warning,
}
use rvf_malinois.Web.Operations.Badge.{Rolls, roll_up_unit_status-Rolls}
use rvf_malinois.Web.Operations.Summary.{
  Summed, no_counts, over, shown, is_stale, summarize_alarms-Summed,
}
use rvf_malinois.Prelude.{◌≡◌, ltb, refl, String, none, some, List, [], ◌∷◌, if◌then◌else◌}

abbrev by_tag : List (String × TagViewState)
by_tag =
    ("p_inlet", record { alarm = AlarmState.warning_high; stale = TelemetryStatus.live })
    ∷ ("q_gas", record { alarm = AlarmState.no_data; stale = TelemetryStatus.offline })
    ∷ ("q_liquid", record { alarm = AlarmState.disabled; stale = TelemetryStatus.live })
    ∷ []

abbrev tiles : List String
tiles = "p_inlet" ∷ ("q_gas" ∷ ("q_liquid" ∷ []))

roll_up_unit_status-Rolls_example :
    Rolls by_tag (considered (some tiles) by_tag) (roll_up_unit_status by_tag (some tiles))
roll_up_unit_status-Rolls_example = roll_up_unit_status-Rolls by_tag (some tiles)

-- A tile that has no entry counts as offline.
missing_tile :
    (roll_up_unit_status by_tag (some ("p_inlet" ∷ ("t_inlet" ∷ [])))).status
    ≡ UnitBadgeStatus.degraded
unfolding roll_up_unit_status
missing_tile = refl

abbrev job : ActiveJobSnapshot
job = record {
  job_id = "j";
  tenant_id = "t";
  well_id = "w";
  unit_id = "u";
  started_at = "2026";
  closed_at = none;
  snapshot = snapshot;
}

summarize_alarms-Summed_example :
    Summed js filled 9000
      (job ∷ [])
      (no_counts js filled 9000)
      (summarize_alarms js filled (λ n. "1") (job ∷ []) 9000).counts
    × ((summarize_alarms js filled (λ n. "1") (job ∷ []) 9000).tone ≡ (
        if ltb 0
          (over js filled 9000 (λ j m. is_process_alarm (shown js filled 9000 j m)) (job ∷ []))
        then Tone.alarm
        else if ltb 0
            (over js filled 9000 (λ j m. is_warning (shown js filled 9000 j m)) (job ∷ []))
        then Tone.warn
        else if ltb 0 (over js filled 9000 (is_stale js filled 9000) (job ∷ []))
        then Tone.stale
        else Tone.normal))
summarize_alarms-Summed_example = summarize_alarms-Summed js filled 9000 (λ n. "1") (job ∷ [])
