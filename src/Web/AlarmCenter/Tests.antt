-- ===== src/Web/AlarmCenter/Tests.antt =====
-- The alarm centre on one job and two events.
use rvf_malinois.Prelude.{none, some, [], ◌∷◌, ◌≤◌, ◌≡◌, count_by}
use rvf_malinois.Web.Models.{good, ActiveJobSnapshot, offline}
use rvf_malinois.Web.AlarmCenter.{LiveAlarmEvent, Severity, EvaluatedState, communication, acked}
use rvf_malinois.Web.AlarmCenter.Findings.{findings_for_jobs}
use rvf_malinois.Web.AlarmCenter.Tick.{derive_alarm_center_snapshot}
use rvf_malinois.Web.AlarmCenter.OneOpen.{derive_alarm_center_snapshot-count}
use rvf_malinois.Web.AlarmCenter.Keys.{is_open_at, is_alarming}
use rvf_malinois.Web.Tests.{js, snapshot, filled}

abbrev job : ActiveJobSnapshot
job = record {
  job_id = "j";
  tenant_id = "t";
  well_id = "w";
  unit_id = "u";
  started_at = "2026";
  closed_at = none;
  snapshot = snapshot;
}

derive_alarm_center_snapshot-count_example :
    (count_by
        (is_open_at "j::p")
        (derive_alarm_center_snapshot
          (λ a n. 100)
          js
          filled
          (job ∷ [])
          none
          []
          90000
          (λ t. t)
          50).events
      ≡ count_by (is_alarming "j::p") (findings_for_jobs js filled (job ∷ []) 90000))
    × (count_by (is_alarming "j::p") (findings_for_jobs js filled (job ∷ []) 90000) ≤ 1)
derive_alarm_center_snapshot-count_example =
    derive_alarm_center_snapshot-count (λ a n. 100) js filled (job ∷ []) [] 90000 (λ t. t) 50 none
      "j::p"

abbrev event : LiveAlarmEvent
event = record {
  id = "e";
  job_id = "j";
  well_id = "w";
  unit_id = "u";
  tag = "p";
  tag_label = "p";
  severity = Severity.high;
  source = communication;
  lifecycle = acked;
  evaluated_state = EvaluatedState.offline;
  value = none;
  unit = "psi";
  threshold_value = none;
  threshold_hit = none;
  quality = good;
  telemetry_status = offline;
  first_seen_at = "2026";
  last_updated_at = "2026";
  acked_by = some "You";
  acked_at = some "2026";
  cleared_at = none;
}
