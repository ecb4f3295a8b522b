-- ===== src/WellTests/Reads.antt =====
-- apps/backend/src/well-tests/well-tests.service.ts: the three reads. The database's
-- `ORDER BY created_at DESC` is the parameter `newest_first`.
use rvf_malinois.Prelude.{
  Uuid, Time, ◌==◌, leb, ltb, Bool, true, false, ◌&&◌, not, List, [], ◌∷◌, Option, none, some,
  find_by, filter_by, take, map, Result, ok, ◌>>=◌, ◌>>◌, guard, or_throw,
}
use rvf_malinois.WellTests.Contracts.{
  LifecycleStatus, TestType, includes, same_test_type, active_statuses, ListQuery,
}
use rvf_malinois.WellTests.Table.{WellTest, Error, not_found, has_id}
use rvf_malinois.WellTests.Service.{WellTestRow, CallerContext, row_to_wire, other_tenant}

-- `...(value ? { column: value } : {})`
abbrev pub matches_if_given : Option Uuid → Uuid → Bool
matches_if_given none column = true
matches_if_given (some v) column = column == v

abbrev pub status_matches : Option LifecycleStatus → LifecycleStatus → Bool
status_matches none column = true
status_matches (some s) column = includes (s ∷ []) column

abbrev pub type_matches : Option TestType → TestType → Bool
type_matches none column = true
type_matches (some t) column = same_test_type column t

-- `officialStartedAt: { gte: from, lt: to }` if both ends are given; NULL is in no window.
abbrev pub in_official_window : Option Time → Option Time → Option Time → Bool
in_official_window (some from) (some to) (some at) = leb from at && ltb at to
in_official_window (some from) (some to) none = false
in_official_window _ _ at = true

unfoldable pub list_where : CallerContext → ListQuery → WellTest → Bool
list_where ctx q r =
    matches_if_given ctx.tenant_id r.tenant_id
    && matches_if_given q.unit_id r.unit_id
    && matches_if_given q.well_id r.well_id
    && matches_if_given q.job_id r.job_id
    && status_matches q.lifecycle_status r.lifecycle_status
    && type_matches q.test_type r.test_type
    && in_official_window q.from q.to r.official_started_at

unfoldable pub active_where : CallerContext → Uuid → WellTest → Bool
active_where ctx unit r =
    matches_if_given ctx.tenant_id r.tenant_id
    && r.unit_id == unit
    && includes active_statuses r.lifecycle_status

unfoldable pub get_by_id : CallerContext → Uuid → List WellTest → Result Error WellTestRow
get_by_id ctx id rows = do
  row ← or_throw (find_by (has_id id) rows) not_found
  guard (not (other_tenant ctx.tenant_id row.tenant_id)) not_found
  ok (row_to_wire row)

abbrev pub wire_or_null : Option WellTest → Option WellTestRow
wire_or_null none = none
wire_or_null (some r) = some (row_to_wire r)

module _ (newest_first : List WellTest → List WellTest) where
  unfoldable pub list : CallerContext → ListQuery → List WellTest → List WellTestRow
  unfolding list_where
  list ctx q rows =
      map row_to_wire (take q.limit (newest_first (filter_by (list_where ctx q) rows)))

  unfoldable pub get_active : CallerContext → Uuid → List WellTest → Option WellTestRow
  unfolding active_where
  get_active ctx unit rows = wire_or_null (find_by (active_where ctx unit) (newest_first rows))
