-- ===== src/Web/AlarmCenter/Derive.antt =====
-- The tick of apps/web/lib/alarms/center/derive.ts.
use rvf_malinois.Prelude.{
  sort_by, leb, Option, none, some, String, List, [], ◌∷◌, ◌++◌, Time, Bool, true, false, not, ◌&&◌,
  if◌then◌else◌, ℕ, ltb, ◌==◌, assign, lookup, is_some, take, filter_by, any_by, str_eq,
}
use rvf_malinois.Web.Models.{
  Platform, Number, JobId, CanonicalTag, TelemetryReading, TelemetryStatus, DataQuality, uncertain,
}
use rvf_malinois.Web.AlarmCenter.{
  EvaluatedState, Lifecycle, active, acked, cleared, Severity, LiveAlarmEvent, severity_for,
  source_for, state_text,
}
use rvf_malinois.Web.AlarmCenter.Findings.{PerTagFinding, center_key}
use Prim.Native.String.{◌++◌ as ◌+++◌}

unfoldable pub event_id : JobId → CanonicalTag → EvaluatedState → String → String
event_id job_id tag state first_seen_at =
    job_id +++ ("::" +++ (tag +++ ("::" +++ (state_text state +++ ("::" +++ first_seen_at)))))

abbrev pub has : List String → String → Bool
has ids id = any_by (λ x. str_eq x id) ids

-- `finding.reading?.ts ?? nowIso`, `finding.reading?.value ?? null` and `finding.reading?.quality ?? q`
abbrev pub seen_at : Option TelemetryReading → String → String
seen_at none now_iso = now_iso
seen_at (some r) now_iso = r.ts

abbrev pub value_of : Option TelemetryReading → Option Number
value_of none = none
value_of (some r) = r.value

abbrev pub quality_of : Option TelemetryReading → DataQuality → DataQuality
quality_of none q = q
quality_of (some r) q = r.quality

module _ (now_iso : String) (acked_ids : List String) where
  -- `buildNewEvent`, for a finding with the state `state`
  unfoldable pub build_new_event :
      PerTagFinding → EvaluatedState → (CanonicalTag → String) → LiveAlarmEvent
  unfolding event_id
  build_new_event f state labeller =
      let id = event_id f.job.job_id f.tag state (seen_at f.reading now_iso) in
      let acked_now = has acked_ids id in
      record {
        id = id;
        job_id = f.job.job_id;
        well_id = f.job.well_id;
        unit_id = f.job.unit_id;
        tag = f.tag;
        tag_label = labeller f.tag;
        severity = severity_for state;
        source = source_for state;
        lifecycle = if acked_now then acked else active;
        evaluated_state = state;
        value = value_of f.reading;
        unit = f.unit;
        threshold_value = f.threshold_value;
        threshold_hit = f.threshold_hit;
        quality = quality_of f.reading uncertain;
        telemetry_status = f.telemetry_status;
        first_seen_at = seen_at f.reading now_iso;
        last_updated_at = now_iso;
        acked_by = if acked_now then some "You" else none;
        acked_at = if acked_now then some now_iso else none;
        cleared_at = none;
      }

-- `{ ...prior, lifecycle: 'CLEARED', clearedAt: nowIso, lastUpdatedAt: nowIso }`
unfoldable pub clear_event : String → LiveAlarmEvent → LiveAlarmEvent
clear_event now_iso e = record e {
  lifecycle = cleared;
  cleared_at = some now_iso;
  last_updated_at = now_iso;
}

-- `a === b` on lifecycles, qualities, statuses and values
abbrev pub lifecycle_rank : Lifecycle → ℕ
lifecycle_rank active = 0
lifecycle_rank acked = 1
lifecycle_rank cleared = 2

abbrev pub quality_rank : DataQuality → ℕ
quality_rank DataQuality.good = 0
quality_rank DataQuality.estimated = 1
quality_rank DataQuality.uncertain = 2
quality_rank DataQuality.bad = 3

abbrev pub status_rank : TelemetryStatus → ℕ
status_rank TelemetryStatus.live = 0
status_rank TelemetryStatus.delayed = 1
status_rank TelemetryStatus.stale = 2
status_rank TelemetryStatus.offline = 3

abbrev pub same_value : (Number → Number → Bool) → Option Number → Option Number → Bool
same_value eq none none = true
same_value eq none (some b) = false
same_value eq (some a) none = false
same_value eq (some a) (some b) = eq a b

abbrev pub same_state : EvaluatedState → EvaluatedState → Bool
same_state a b = str_eq (state_text a) (state_text b)

abbrev pub is_acked : Lifecycle → Bool
is_acked active = false
is_acked acked = true
is_acked cleared = false

abbrev pub is_cleared : Lifecycle → Bool
is_cleared active = false
is_cleared acked = false
is_cleared cleared = true

-- A text that is there and not empty.
abbrev pub is_truthy : Option String → Bool
is_truthy none = false
is_truthy (some text) = not (str_eq text "")

module _ (js : Platform) (now_iso : String) (acked_ids : List String) where
  unfoldable pub next_lifecycle : LiveAlarmEvent → Lifecycle
  next_lifecycle prev =
      if has acked_ids prev.id then acked else if is_acked prev.lifecycle then acked else active

  unfoldable pub merge_active_event : LiveAlarmEvent → PerTagFinding → LiveAlarmEvent
  unfolding next_lifecycle
  merge_active_event prev f =
      let lifecycle = next_lifecycle prev in
      let value = value_of f.reading in
      let quality = quality_of f.reading prev.quality in
      let fresh = is_acked lifecycle && not (is_truthy prev.acked_at) in
      if (lifecycle_rank lifecycle == lifecycle_rank prev.lifecycle)
        && (same_value js.number_eq value prev.value)
        && (quality_rank quality == quality_rank prev.quality)
        && (status_rank f.telemetry_status == status_rank prev.telemetry_status)
      then prev
      else record prev {
        value = value;
        quality = quality;
        telemetry_status = f.telemetry_status;
        lifecycle = lifecycle;
        last_updated_at = now_iso;
        acked_by = if fresh then some "You" else prev.acked_by;
        acked_at = if fresh then some now_iso else prev.acked_at;
      }

  module _ (labeller : CanonicalTag → String) where
    -- A finding with the state `state` on a tag that has the open event `p`.
    unfoldable pub on_prior : PerTagFinding → EvaluatedState → LiveAlarmEvent → List LiveAlarmEvent
    unfolding merge_active_event build_new_event clear_event
    on_prior f state p =
        if same_state p.evaluated_state state
        then merge_active_event p f ∷ []
        else clear_event now_iso p ∷ (build_new_event now_iso acked_ids f state labeller ∷ [])

    -- The body of the loop over the findings, with the open event of the finding's tag.
    unfoldable pub on_finding :
        PerTagFinding → Option EvaluatedState → Option LiveAlarmEvent → List LiveAlarmEvent
    unfolding on_prior build_new_event clear_event
    on_finding f none none = []
    on_finding f none (some p) = clear_event now_iso p ∷ []
    on_finding f (some state) none = build_new_event now_iso acked_ids f state labeller ∷ []
    on_finding f (some state) (some p) = on_prior f state p

    unfoldable pub on_findings :
        List (String × LiveAlarmEvent) → List (String × PerTagFinding) → List LiveAlarmEvent
    unfolding on_finding
    on_findings prior [] = []
    on_findings prior ((k, f) ∷ rest) =
        on_finding f f.evaluated_state (lookup (center_key f.job.job_id f.tag) prior)
        ++ on_findings prior rest

-- The open events of the last snapshot by their tag, each in the place of the first with its key.
unfoldable pub open_by_tag :
    List LiveAlarmEvent → List (String × LiveAlarmEvent) → List (String × LiveAlarmEvent)
open_by_tag [] out = out
open_by_tag (e ∷ es) out =
    open_by_tag es
      (if is_cleared e.lifecycle then out else assign (center_key e.job_id e.tag) e out)

-- The open events whose tag has no finding any more.
unfoldable pub dropped :
    String → List (String × PerTagFinding) → List (String × LiveAlarmEvent) → List LiveAlarmEvent
unfolding clear_event
dropped now_iso findings [] = []
dropped now_iso findings ((k, p) ∷ rest) =
    if is_some (lookup k findings)
    then dropped now_iso findings rest
    else clear_event now_iso p ∷ dropped now_iso findings rest

-- Whether `parse(b) - parse(a)` is not positive; NaN counts as zero.
abbrev pub not_older : Option Time → Option Time → Bool
not_older none b = true
not_older (some a) none = true
not_older (some a) (some b) = leb b a

abbrev pub or_text : Option String → String → String
or_text none text = text
or_text (some a) text = a

abbrev pub severity_rank : Severity → ℕ
severity_rank Severity.urgent = 0
severity_rank Severity.high = 1
severity_rank Severity.medium = 2
severity_rank Severity.low = 3

module _ (js : Platform) where
  -- The comparators of the two sorts.
  unfoldable pub cleared_later : LiveAlarmEvent → LiveAlarmEvent → Bool
  cleared_later a b =
      not_older (js.parse_date (or_text a.cleared_at a.last_updated_at))
        (js.parse_date (or_text b.cleared_at b.last_updated_at))

  unfoldable pub displayed_before : LiveAlarmEvent → LiveAlarmEvent → Bool
  displayed_before a b =
      if lifecycle_rank a.lifecycle == lifecycle_rank b.lifecycle
      then (if severity_rank a.severity == severity_rank b.severity
          then not_older (js.parse_date a.first_seen_at) (js.parse_date b.first_seen_at)
          else ltb (severity_rank a.severity) (severity_rank b.severity))
      else ltb (lifecycle_rank a.lifecycle) (lifecycle_rank b.lifecycle)

  unfoldable pub sort_for_display : List LiveAlarmEvent → List LiveAlarmEvent
  sort_for_display events = sort_by displayed_before events

  unfoldable pub trimmed_carry : ℕ → List LiveAlarmEvent → List LiveAlarmEvent
  trimmed_carry max_cleared events =
      take max_cleared (sort_by cleared_later (filter_by (λ e. is_cleared e.lifecycle) events))
