-- ===== src/Alarms/Reads.antt =====
-- apps/backend/src/alarms/contracts/events.ts and apps/backend/src/alarms/alarm-events-read.service.ts.
-- A stored row comes with its tag joined; the columns under a CHECK constraint are texts to the code.
pub mod Newest
mod Tests
use rvf_malinois.Store.Rows.{
  Decimal, Severity, info, warning, critical, AlarmState, active, acknowledged, cleared,
  ThresholdViolated, low_low, low, high, high_high,
}
use rvf_malinois.WellTests.Service.{CallerContext}
use rvf_malinois.WellTests.Reads.{matches_if_given}
use rvf_malinois.Telemetry.Resolver.{HttpError, CanonicalTagRow, resolve_tag}
use rvf_malinois.Prelude.{
  text_schema, ℕ, ◌==◌, ltb, leb, Uuid, Time, String, str_eq, Bool, true, false, not, ◌&&◌, ◌||◌,
  if◌then◌else◌, is_some, Option, none, some, List, map, take, filter_by, sort_by, Result, ok, err,
  ◌>>=◌,
}

abbrev pub alarm_events_limit_max : ℕ
alarm_events_limit_max = 500

abbrev pub alarm_events_limit_default : ℕ
alarm_events_limit_default = 100

abbrev pub alarm_events_state_default : AlarmState
alarm_events_state_default = active

-- A request with its defaults filled in.
pub record AlarmEventsQuery : Type 0 where
  pub unit_id : Option Uuid
  pub canonical_tag_id : Option Uuid
  pub canonical_tag_name : Option String
  pub state : AlarmState
  pub severity : Option Severity
  pub from : Option Time
  pub to : Option Time
  pub limit : ℕ

abbrev pub starts_before : Option Time → Option Time → Bool
starts_before (some from) (some to) = ltb from to
starts_before _ _ = true

-- The bounds of the tag's name and of `limit`, and the four refinements.
unfoldable pub alarm_events_query_schema : AlarmEventsQuery → Bool
alarm_events_query_schema q =
    text_schema 64 q.canonical_tag_name
    && leb 1 q.limit
    && leb q.limit alarm_events_limit_max
    && not (is_some q.canonical_tag_id && is_some q.canonical_tag_name)
    && (if is_some q.from then is_some q.to else true)
    && (if is_some q.to then is_some q.from else true)
    && starts_before q.from q.to

-- A row of `alarm_events`.
pub record AlarmEventRecord : Type 0 where
  pub id : Uuid
  pub tenant_id : Uuid
  pub unit_id : Uuid
  pub canonical_tag : CanonicalTagRow
  pub alarm_rule_id : Option Uuid
  pub severity : String
  pub triggered_value : Decimal
  pub threshold_violated : String
  pub state : String
  pub first_triggered_at : Time
  pub acknowledged_at : Option Time
  pub acknowledged_by : Option Uuid
  pub cleared_at : Option Time

pub record AlarmEventRow : Type 0 where
  pub alarm_event_id : Uuid
  pub unit_id : Uuid
  pub canonical_tag : CanonicalTagRow
  pub alarm_rule_id : Option Uuid
  pub severity : Severity
  pub state : AlarmState
  pub triggered_value : Decimal
  pub threshold_violated : ThresholdViolated
  pub first_triggered_at : Time
  pub acknowledged_at : Option Time
  pub acknowledged_by : Option Uuid
  pub cleared_at : Option Time

-- `generatedAt` and `source` of the envelope are left out.
pub record AlarmEventsResponse : Type 0 where
  pub state : AlarmState
  pub events : List AlarmEventRow

-- The text of a member of an enumeration.
abbrev pub severity_text : Severity → String
severity_text info = "info"
severity_text warning = "warning"
severity_text critical = "critical"

abbrev pub state_text : AlarmState → String
state_text active = "active"
state_text acknowledged = "acknowledged"
state_text cleared = "cleared"

unfoldable pub narrow_severity : String → Severity
narrow_severity raw =
    if str_eq raw "info"
    then info
    else if str_eq raw "warning"
    then warning
    else if str_eq raw "critical"
    then critical
    else info

unfoldable pub narrow_state : String → AlarmState
narrow_state raw =
    if str_eq raw "active"
    then active
    else if str_eq raw "acknowledged"
    then acknowledged
    else if str_eq raw "cleared"
    then cleared
    else active

unfoldable pub narrow_threshold_band : String → ThresholdViolated
narrow_threshold_band raw =
    if str_eq raw "low_low"
    then low_low
    else if str_eq raw "low"
    then low
    else if str_eq raw "high"
    then high
    else if str_eq raw "high_high"
    then high_high
    else high

unfoldable pub row_of : AlarmEventRecord → AlarmEventRow
unfolding narrow_severity narrow_state narrow_threshold_band
row_of row = record {
  alarm_event_id = row.id;
  unit_id = row.unit_id;
  canonical_tag = row.canonical_tag;
  alarm_rule_id = row.alarm_rule_id;
  severity = narrow_severity row.severity;
  state = narrow_state row.state;
  triggered_value = row.triggered_value;
  threshold_violated = narrow_threshold_band row.threshold_violated;
  first_triggered_at = row.first_triggered_at;
  acknowledged_at = row.acknowledged_at;
  acknowledged_by = row.acknowledged_by;
  cleared_at = row.cleared_at;
}

abbrev pub severity_matches : Option Severity → String → Bool
severity_matches none column = true
severity_matches (some s) column = str_eq column (severity_text s)

-- `{ gte: from, lt: to }` if both ends are given
abbrev pub in_window : Option Time → Option Time → Time → Bool
in_window (some from) (some to) at = leb from at && ltb at to
in_window _ _ at = true

unfoldable pub events_where :
    CallerContext → AlarmEventsQuery → Option Uuid → AlarmEventRecord → Bool
events_where ctx q tag row =
    matches_if_given ctx.tenant_id row.tenant_id
    && matches_if_given q.unit_id row.unit_id
    && matches_if_given tag row.canonical_tag.id
    && severity_matches q.severity row.severity
    && str_eq row.state (state_text q.state)
    && in_window q.from q.to row.first_triggered_at

-- `ORDER BY first_triggered_at DESC`
abbrev pub newest_first : AlarmEventRecord → AlarmEventRecord → Bool
newest_first a b = leb b.first_triggered_at a.first_triggered_at

unfoldable pub list_events :
    CallerContext → AlarmEventsQuery → Option Uuid → List AlarmEventRecord → AlarmEventsResponse
unfolding events_where row_of
list_events ctx q tag rows = record {
  state = q.state;
  events =
      map row_of (take q.limit (sort_by newest_first (filter_by (events_where ctx q tag) rows)));
}

unfoldable pub query :
    CallerContext
    → AlarmEventsQuery
    → List CanonicalTagRow
    → List AlarmEventRecord
    → Result HttpError AlarmEventsResponse
unfolding resolve_tag list_events
query ctx q tags rows = resolve_tag tags q.canonical_tag_id q.canonical_tag_name >>= λ tag.
    ok (list_events ctx q tag rows)
