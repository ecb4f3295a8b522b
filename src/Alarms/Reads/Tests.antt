-- ===== src/Alarms/Reads/Tests.antt =====
-- Alarm reads on a small table.
use rvf_malinois.WellTests.Service.{CallerContext}
use rvf_malinois.Store.Rows.{warning, active}
use rvf_malinois.Telemetry.Resolver.{resolve_tag, CanonicalTagRow}
use rvf_malinois.Alarms.Reads.{AlarmEventsQuery, AlarmEventRecord, row_of, query}
use rvf_malinois.Alarms.Reads.Newest.{AreNewest, query-AreNewest}
use rvf_malinois.Prelude.{◌≡◌, refl, Uuid, Time, String, Option, none, some, List, [], ◌∷◌, ok}

abbrev tag : CanonicalTagRow
tag = record {
  id = 4;
  name = "p_inlet";
  display_name = "Inlet pressure";
  canonical_unit = "psi";
  category = "pressure";
  precision = 2;
}

abbrev event_at : Uuid → Uuid → Time → String → AlarmEventRecord
event_at id tenant at state = record {
  id = id;
  tenant_id = tenant;
  unit_id = 2;
  canonical_tag = tag;
  alarm_rule_id = none;
  severity = "warning";
  triggered_value = "99";
  threshold_violated = "high";
  state = state;
  first_triggered_at = at;
  acknowledged_at = none;
  acknowledged_by = none;
  cleared_at = none;
}

abbrev rows : List AlarmEventRecord
rows =
    event_at 1 1 100 "active"
    ∷ event_at 2 1 300 "active"
    ∷ event_at 3 9 400 "active"
    ∷ event_at 4 1 500 "cleared"
    ∷ []

abbrev caller : CallerContext
caller = record { tenant_id = some 1 }

abbrev asked : AlarmEventsQuery
asked = record {
  unit_id = some 2;
  canonical_tag_id = some 4;
  canonical_tag_name = none;
  state = active;
  severity = some warning;
  from = none;
  to = none;
  limit = 1;
}

abbrev newest_row : AlarmEventRecord
newest_row = event_at 2 1 300 "active"

asked_runs :
    query caller asked (tag ∷ []) rows
    ≡ ok (record { state = active; events = row_of newest_row ∷ [] })
unfolding query
asked_runs = refl

query-AreNewest_example :
    (t : Option Uuid) × (resolve_tag (tag ∷ []) (some 4) none ≡ ok t)
    × AreNewest caller asked t rows (row_of newest_row ∷ [])
query-AreNewest_example = query-AreNewest caller asked (tag ∷ []) rows asked_runs
