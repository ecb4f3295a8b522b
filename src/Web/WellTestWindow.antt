-- ===== src/Web/WellTestWindow.antt =====
-- apps/web/lib/hooks/useWellTestWindow.ts: the window of a well test that a pill shows. Of the wire
-- row it has the columns that the code reads; instants are ISO texts there.
mod Tests
pub mod Ordered
use rvf_malinois.WellTests.Contracts.{
  LifecycleStatus, scheduled, connected, stabilizing, measuring, completed, closed, aborted,
}
use rvf_malinois.Web.Models.{Platform}
use rvf_malinois.Web.Stale.{or_default}
use rvf_malinois.Prelude.{
  Time, String, Bool, true, false, not, ◌&&◌, ◌-◌, ◌*◌, ◌/◌, ℕ, Option, none, some, is_some,
  if◌then◌else◌,
}

pub record WellTestRow : Type 0 where
  pub lifecycle_status : LifecycleStatus
  pub connected_at : Option String
  pub stabilization_started_at : Option String
  pub stabilization_ended_at : Option String
  pub official_started_at : Option String
  pub official_ended_at : Option String
  pub disconnected_at : Option String
  pub aborted_at : Option String

pub data WellTestPillId : Type 0 where
  last_hour stabilization official_window full_test : WellTestPillId

pub data WellTestWindowKind : Type 0 where
  diagnostic stabilization official full_test : WellTestWindowKind

pub record DerivedWellTestWindow : Type 0 where
  pub pill_id : WellTestPillId
  pub label : String
  pub is_disabled : Bool
  pub disabled_reason : String
  pub from_ms : Option Time
  pub to_ms : Option Time
  pub from_iso : Option String
  pub to_iso : Option String
  pub kind : WellTestWindowKind
  pub badge_label : String
  pub aborted : Bool
  pub ends_at_now : Bool

abbrev pub one_hour_ms : ℕ
one_hour_ms = 3600000

abbrev pub cache_bucket_ms : ℕ
cache_bucket_ms = 15000

unfoldable pub quantize : Time → Time
quantize now = now / cache_bucket_ms * cache_bucket_ms

-- `a ?? b`, where `b` may be null too
abbrev pub or_else {ℓ} : {A : Type ℓ} → Option A → Option A → Option A
or_else none b = b
or_else (some a) b = some a

unfoldable pub disabled_descriptor :
    WellTestPillId → String → String → WellTestWindowKind → String → DerivedWellTestWindow
disabled_descriptor pill label reason kind badge = record {
  pill_id = pill;
  label = label;
  is_disabled = true;
  disabled_reason = reason;
  from_ms = none;
  to_ms = none;
  from_iso = none;
  to_iso = none;
  kind = kind;
  badge_label = badge;
  aborted = false;
  ends_at_now = false;
}

abbrev pub is_aborted : LifecycleStatus → Bool
is_aborted aborted = true
is_aborted _ = false

module _ (js : Platform) where
  unfoldable pub parse_iso : Option String → Option Time
  parse_iso none = none
  parse_iso (some raw) = js.parse_date raw

  -- The descriptor of a pill that is not disabled.
  unfoldable pub enabled_descriptor :
      WellTestPillId
      → String
      → Time
      → Time
      → WellTestWindowKind
      → String
      → Bool
      → Bool
      → DerivedWellTestWindow
  enabled_descriptor pill label from to kind badge is_aborted ends_at_now = record {
    pill_id = pill;
    label = label;
    is_disabled = false;
    disabled_reason = "";
    from_ms = some from;
    to_ms = some to;
    from_iso = some (js.to_iso from);
    to_iso = some (js.to_iso to);
    kind = kind;
    badge_label = badge;
    aborted = is_aborted;
    ends_at_now = ends_at_now;
  }

  unfoldable pub last_hour_window : Time → DerivedWellTestWindow
  unfolding enabled_descriptor
  last_hour_window now =
      enabled_descriptor WellTestPillId.last_hour "Last Hour" (now - one_hour_ms) now diagnostic
        "Diagnostic" false true

  -- `stabilizationWindow` where `active?.stabilizationStartedAt` is the text `started`.
  unfoldable pub stabilization_from : WellTestRow → Time → Option Time → DerivedWellTestWindow
  unfolding disabled_descriptor enabled_descriptor parse_iso
  stabilization_from active now none =
      disabled_descriptor WellTestPillId.stabilization "Stabilization"
        "Stabilization start timestamp is invalid." WellTestWindowKind.stabilization
        "Stabilization phase"
  stabilization_from active now (some from) =
      let stab_end = parse_iso active.stabilization_ended_at in
      let official_start = parse_iso active.official_started_at in
      enabled_descriptor WellTestPillId.stabilization "Stabilization" from
        (or_default stab_end (or_default official_start now)) WellTestWindowKind.stabilization
        "Stabilization phase" false (not (is_some stab_end) && not (is_some official_start))

  unfoldable pub stabilization_started : WellTestRow → Time → Option String → DerivedWellTestWindow
  unfolding disabled_descriptor stabilization_from
  stabilization_started active now none =
      disabled_descriptor WellTestPillId.stabilization "Stabilization"
        "Stabilization has not started." WellTestWindowKind.stabilization "Stabilization phase"
  stabilization_started active now (some started) =
      stabilization_from active now (js.parse_date started)

  unfoldable pub stabilization_window : Option WellTestRow → Time → DerivedWellTestWindow
  unfolding disabled_descriptor stabilization_started
  stabilization_window none now =
      disabled_descriptor WellTestPillId.stabilization "Stabilization"
        "Stabilization has not started." WellTestWindowKind.stabilization "Stabilization phase"
  stabilization_window (some active) now =
      stabilization_started active now active.stabilization_started_at

  unfoldable pub official_disabled : String → String → DerivedWellTestWindow
  unfolding disabled_descriptor
  official_disabled reason badge =
      disabled_descriptor WellTestPillId.official_window "Official Window" reason official badge

  unfoldable pub official_enabled : Time → Time → String → Bool → Bool → DerivedWellTestWindow
  unfolding enabled_descriptor
  official_enabled from to badge is_aborted ends_at_now =
      enabled_descriptor WellTestPillId.official_window "Official Window" from to official badge
        is_aborted ends_at_now

  -- The case `'completed'`, which `'closed'` falls into.
  unfoldable pub official_ended : Time → Option Time → DerivedWellTestWindow
  unfolding official_disabled official_enabled
  official_ended from none =
      official_disabled "Official window missing end timestamp."
        "Official Window data invariant violation"
  official_ended from (some end) = official_enabled from end "Official Window completed" false false

  unfoldable pub official_aborted : Time → Time → Option Time → Option Time → DerivedWellTestWindow
  unfolding official_enabled
  official_aborted from now abort official_end =
      official_enabled from (or_default abort (or_default official_end now))
        "Official Window aborted" true (not (is_some abort) && not (is_some official_end))

  -- The `switch` on the status.
  unfoldable pub official_by_status :
      WellTestRow → Time → Time → LifecycleStatus → DerivedWellTestWindow
  unfolding official_enabled official_ended official_aborted parse_iso
  official_by_status active now from measuring =
      official_enabled from now "Official Window in progress" false true
  official_by_status active now from completed =
      official_ended from (parse_iso active.official_ended_at)
  official_by_status active now from closed =
      official_ended from (parse_iso active.official_ended_at)
  official_by_status active now from aborted =
      official_aborted from now (parse_iso active.aborted_at) (parse_iso active.official_ended_at)
  official_by_status active now from scheduled =
      official_enabled from now "Official Window in progress" false true
  official_by_status active now from connected =
      official_enabled from now "Official Window in progress" false true
  official_by_status active now from stabilizing =
      official_enabled from now "Official Window in progress" false true

  unfoldable pub official_from : WellTestRow → Time → Option Time → DerivedWellTestWindow
  unfolding official_disabled official_by_status
  official_from active now none =
      official_disabled "Official start timestamp is invalid." "Official Window"
  official_from active now (some from) = official_by_status active now from active.lifecycle_status

  unfoldable pub official_started : WellTestRow → Time → Option String → DerivedWellTestWindow
  unfolding official_disabled official_from
  official_started active now none =
      official_disabled "Official measurement has not started." "Official Window"
  official_started active now (some started) = official_from active now (js.parse_date started)

  unfoldable pub official_window_of : Option WellTestRow → Time → DerivedWellTestWindow
  unfolding official_disabled official_started
  official_window_of none now = official_disabled "No active well test." "Official Window"
  official_window_of (some active) now = official_started active now active.official_started_at

  unfoldable pub full_disabled : String → DerivedWellTestWindow
  unfolding disabled_descriptor
  full_disabled reason =
      disabled_descriptor WellTestPillId.full_test "Full Test" reason WellTestWindowKind.full_test
        "Full Test"

  unfoldable pub full_from : WellTestRow → Time → Option Time → DerivedWellTestWindow
  unfolding full_disabled enabled_descriptor parse_iso
  full_from active now none = full_disabled "Well test has no valid start timestamp."
  full_from active now (some start) =
      let disconnect = parse_iso active.disconnected_at in
      let official_end = parse_iso active.official_ended_at in
      enabled_descriptor WellTestPillId.full_test "Full Test" start
        (or_default disconnect (or_default official_end now)) WellTestWindowKind.full_test
        "Full Test" (is_aborted active.lifecycle_status)
        (not (is_some disconnect) && not (is_some official_end))

  unfoldable pub full_test_window : Option WellTestRow → Time → DerivedWellTestWindow
  unfolding full_disabled full_from parse_iso
  full_test_window none now = full_disabled "No active well test."
  full_test_window (some active) now =
      if not (is_some active.connected_at) && not (is_some active.stabilization_started_at)
      then full_disabled "Well test has not been connected yet."
      else full_from active now (
          or_else (parse_iso active.connected_at) (
            or_else (parse_iso active.stabilization_started_at)
              (parse_iso active.official_started_at)))

  unfoldable pub derive_well_test_window :
      Option WellTestRow → WellTestPillId → Time → DerivedWellTestWindow
  unfolding last_hour_window stabilization_window official_window_of full_test_window
  derive_well_test_window active WellTestPillId.last_hour now = last_hour_window now
  derive_well_test_window active WellTestPillId.stabilization now = stabilization_window active now
  derive_well_test_window active WellTestPillId.official_window now = official_window_of active now
  derive_well_test_window active WellTestPillId.full_test now = full_test_window active now

unfoldable pub default_pill_of : WellTestRow → LifecycleStatus → WellTestPillId
default_pill_of active measuring = WellTestPillId.official_window
default_pill_of active completed = WellTestPillId.official_window
default_pill_of active closed = WellTestPillId.official_window
default_pill_of active stabilizing = WellTestPillId.stabilization
default_pill_of active aborted =
    if is_some active.official_started_at
    then WellTestPillId.official_window
    else WellTestPillId.last_hour
default_pill_of active scheduled = WellTestPillId.last_hour
default_pill_of active connected = WellTestPillId.last_hour

unfoldable pub default_pill_for_active_well_test : Option WellTestRow → WellTestPillId
unfolding default_pill_of
default_pill_for_active_well_test none = WellTestPillId.last_hour
default_pill_for_active_well_test (some active) = default_pill_of active active.lifecycle_status
