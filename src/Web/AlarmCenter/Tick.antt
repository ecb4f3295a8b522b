-- ===== src/Web/AlarmCenter/Tick.antt =====
-- The summary and the whole tick of apps/web/lib/alarms/center/derive.ts.
use rvf_malinois.Prelude.{
  Option, none, some, String, List, [], ◌∷◌, ◌++◌, Time, if◌then◌else◌, ℕ, ◌==◌, ◌+◌, length,
}
use rvf_malinois.Web.Models.{Platform, CanonicalTag, ActiveJobSnapshot}
use rvf_malinois.Web.AlarmCenter.{
  Lifecycle, active, acked, cleared, Severity, SourceType, process, data_quality, communication,
  LiveAlarmEvent, Summary, AlarmCenterSnapshot,
}
use rvf_malinois.Web.AlarmCenter.Derive.{
  sort_for_display, trimmed_carry, open_by_tag, on_findings, dropped,
}
use rvf_malinois.Web.AlarmCenter.Findings.{findings_for_jobs}
use rvf_malinois.Web.TelemetryStore.{TelemetryStore}

abbrev pub zero_counts : Summary
zero_counts = record {
  urgent = 0;
  high = 0;
  medium = 0;
  low = 0;
  acked = 0;
  cleared = 0;
  total_events = 0;
  data_quality_active = 0;
  communication_active = 0;
  active_unacked = 0;
  active_total = 0;
  ack_pct = 100;
}

abbrev pub count_severity : Severity → Summary → Summary
count_severity Severity.urgent c = record c { urgent = c.urgent + 1 }
count_severity Severity.high c = record c { high = c.high + 1 }
count_severity Severity.medium c = record c { medium = c.medium + 1 }
count_severity Severity.low c = record c { low = c.low + 1 }

abbrev pub count_source : SourceType → Summary → Summary
count_source process c = c
count_source data_quality c = record c { data_quality_active = c.data_quality_active + 1 }
count_source communication c = record c { communication_active = c.communication_active + 1 }

-- The body of the loop of `summarise`.
unfoldable pub count_event : LiveAlarmEvent → Lifecycle → Summary → Summary
count_event e cleared c = record c { cleared = c.cleared + 1 }
count_event e acked c = count_source e.source (
    count_severity e.severity (record c { acked = c.acked + 1; active_total = c.active_total + 1 }))
count_event e active c = count_source e.source (
    count_severity e.severity
      (record c { active_unacked = c.active_unacked + 1; active_total = c.active_total + 1 }))

unfoldable pub count_events : List LiveAlarmEvent → Summary → Summary
unfolding count_event
count_events [] c = c
count_events (e ∷ es) c = count_events es (count_event e e.lifecycle c)

-- `prev?.events ?? []`
abbrev pub prev_events : Option AlarmCenterSnapshot → List LiveAlarmEvent
prev_events none = []
prev_events (some prev) = prev.events

module _ (js : Platform) where
  -- The list `nextEvents` before the sort.
  unfoldable pub next_events :
      TelemetryStore
      → List ActiveJobSnapshot
      → List LiveAlarmEvent
      → List String
      → Time
      → (CanonicalTag → String)
      → ℕ
      → List LiveAlarmEvent
  unfolding findings_for_jobs open_by_tag on_findings dropped trimmed_carry
  next_events store jobs prev acked_ids now labeller max_cleared =
      let findings = findings_for_jobs js store jobs now in
      let prior = open_by_tag prev [] in
      on_findings js (js.to_iso now) acked_ids labeller prior findings
      ++ (dropped (js.to_iso now) findings prior ++ trimmed_carry js max_cleared prev)

-- `percent a n` is `Math.round((a / n) * 100)`, in the floating point arithmetic of the runtime.
module _ (percent : ℕ → ℕ → ℕ) where
  unfoldable pub summarise : List LiveAlarmEvent → Summary
  unfolding count_events
  summarise events =
      let c = count_events events zero_counts in
      record c {
        total_events = length events;
        ack_pct = if c.active_total == 0 then 100 else percent c.acked c.active_total;
      }

  module _ (js : Platform) where
    -- `deriveAlarmCenterSnapshot`, with `maxClearedRetained` given
    unfoldable pub derive_alarm_center_snapshot :
        TelemetryStore
        → List ActiveJobSnapshot
        → Option AlarmCenterSnapshot
        → List String
        → Time
        → (CanonicalTag → String)
        → ℕ
        → AlarmCenterSnapshot
    unfolding next_events sort_for_display summarise
    derive_alarm_center_snapshot store jobs prev acked_ids now labeller max_cleared =
        let sorted =
          sort_for_display js
            (next_events js store jobs (prev_events prev) acked_ids now labeller max_cleared) in
        record { events = sorted; summary = summarise sorted; generated_at = js.to_iso now }
