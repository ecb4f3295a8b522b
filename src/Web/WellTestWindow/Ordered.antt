-- ===== src/Web/WellTestWindow/Ordered.antt =====
-- The windows of the pills, for a row that the well-test service has written.
use rvf_malinois.WellTests.Table.{WellTest, row_chk}
use rvf_malinois.WellTests.Service
use rvf_malinois.WellTests.Contracts.{
  LifecycleStatus, scheduled, connected, stabilizing, measuring, completed, closed, aborted,
}
use rvf_malinois.WellTests.Service.{row_to_wire}
use rvf_malinois.WellTests.Lifecycle.Constraints.{IsSound}
use rvf_malinois.Web.Models.{Platform}
use rvf_malinois.Web.WellTestWindow.{
  WellTestRow, WellTestPillId, DerivedWellTestWindow, derive_well_test_window, parse_iso,
  default_pill_for_active_well_test,
}
use rvf_malinois.Prelude.{
  Time, String, Bool, true, false, Option, none, some, ◌≡◌, ◌≤◌, inl, inr, arith, refl,
  Option-cases,
}

-- The text of an instant, null for null.
abbrev pub iso : Platform → Option Time → Option String
iso js none = none
iso js (some t) = some (js.to_iso t)

-- A row of the service as its JSON arrives: a `Date` is written by `toISOString`.
unfoldable pub received : Platform → Service.WellTestRow → WellTestRow
received js row = record {
  lifecycle_status = row.lifecycle_status;
  connected_at = iso js row.connected_at;
  stabilization_started_at = iso js row.stabilization_started_at;
  stabilization_ended_at = iso js row.stabilization_ended_at;
  official_started_at = iso js row.official_started_at;
  official_ended_at = iso js row.official_ended_at;
  disconnected_at = iso js row.disconnected_at;
  aborted_at = iso js row.aborted_at;
}

-- A pill is disabled and has no window, or its window does not end before it starts.
abbrev pub HasWindow : Bool → Option Time → Option Time → Type 0
HasWindow true none none = Unit {0}
HasWindow false (some from) (some to) = from ≤ to
HasWindow _ _ _ = ⊥

abbrev pub IsOrdered : DerivedWellTestWindow → Type 0
IsOrdered d = HasWindow d.is_disabled d.from_ms d.to_ms

module _ (js : Platform) (parse-to_iso : (t : Time) → js.parse_date (js.to_iso t) ≡ some t) where
  parse_iso-iso : (o : Option Time) → parse_iso js (iso js o) ≡ o
  unfolding parse_iso
  parse_iso-iso none = refl
  parse_iso-iso (some t) = parse-to_iso t

  -- If `Date.parse` reads back what `toISOString` writes, then for a row that is sound at an instant,
  -- as all rows are that the service has written by then, each pill is at that instant disabled with
  -- no window, or enabled with a window that does not end before it starts.
  pub derive_well_test_window-IsOrdered :
      (row : WellTest) (now : Time) (pill : WellTestPillId)
      → IsSound now row
      → IsOrdered (derive_well_test_window js (some (received js (row_to_wire row))) pill now)
  unfolding derive_well_test_window received row_to_wire row_chk
  derive_well_test_window-IsOrdered row now WellTestPillId.last_hour s = ground arith
  derive_well_test_window-IsOrdered row now WellTestPillId.stabilization s =
      elim (Option-cases row.stabilization_started_at) [
        | inl e ↦ rw e tt
        | inr (t, e) ↦
            rw (e, parse-to_iso t)
              (ground (
                arith,
                parse_iso-iso row.stabilization_ended_at,
                parse_iso-iso row.official_started_at,
              ))
      ]
  derive_well_test_window-IsOrdered row now WellTestPillId.official_window s =
      elim (Option-cases row.official_started_at) [
        | inl e ↦ rw e tt
        | inr (t, e) ↦
            rw (e, parse-to_iso t)
              (ground (arith, parse_iso-iso row.official_ended_at, parse_iso-iso row.aborted_at))
      ]
  derive_well_test_window-IsOrdered row now WellTestPillId.full_test s = ground (
    arith,
    parse_iso-iso row.connected_at,
    parse_iso-iso row.stabilization_started_at,
    parse_iso-iso row.official_started_at,
    parse_iso-iso row.disconnected_at,
    parse_iso-iso row.official_ended_at,
  )

  -- By the status of the row.
  default_by_status :
      (row : WellTest) (now : Time) (status : LifecycleStatus)
      → row.lifecycle_status ≡ status
      → IsSound now row
      → (derive_well_test_window js
          (some (received js (row_to_wire row)))
          (default_pill_for_active_well_test (some (received js (row_to_wire row))))
          now).is_disabled
        ≡ false
  unfolding derive_well_test_window received row_to_wire row_chk default_pill_for_active_well_test
  default_by_status row now scheduled e s = rw e refl
  default_by_status row now connected e s = rw e refl
  default_by_status row now stabilizing e s = elim (Option-cases row.stabilization_started_at) [
    | inl f ↦ ground arith
    | inr (t, f) ↦ ground (arith, parse-to_iso t)
  ]
  default_by_status row now measuring e s = elim (Option-cases row.official_started_at) [
    | inl f ↦ ground arith
    | inr (t, f) ↦ ground (arith, parse-to_iso t)
  ]
  default_by_status row now completed e s = elim (Option-cases row.official_started_at) [
    | inl f ↦ ground arith
    | inr (t, f) ↦ ground (arith, parse-to_iso t, parse_iso-iso row.official_ended_at)
  ]
  default_by_status row now closed e s = elim (Option-cases row.official_started_at) [
    | inl f ↦ ground arith
    | inr (t, f) ↦ ground (arith, parse-to_iso t, parse_iso-iso row.official_ended_at)
  ]
  default_by_status row now aborted e s = elim (Option-cases row.official_started_at) [
    | inl f ↦ ground arith
    | inr (t, f) ↦ ground (arith, parse-to_iso t)
  ]

  -- If `Date.parse` reads back what `toISOString` writes, then the pill that is chosen for a row that is
  -- sound at an instant is not disabled at that instant.
  default_pill-enabled :
      (row : WellTest) (now : Time)
      → IsSound now row
      → (derive_well_test_window js
          (some (received js (row_to_wire row)))
          (default_pill_for_active_well_test (some (received js (row_to_wire row))))
          now).is_disabled
        ≡ false
  unfolding derive_well_test_window received row_to_wire row_chk default_pill_for_active_well_test
  default_pill-enabled row now s = default_by_status row now row.lifecycle_status refl s
