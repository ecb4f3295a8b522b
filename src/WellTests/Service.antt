-- ===== src/WellTests/Service.antt =====
-- apps/backend/src/well-tests/well-tests.service.ts. Each method takes the table and the server's
-- clock and returns the new table with the wire row, or the exception. The nested summaries of the
-- job, the well and the unit in a detail are copied from a join and are left out.
use rvf_malinois.Prelude.{
  Uuid, Time, ℕ, ◌==◌, ltb, if◌then◌else◌, Bool, false, ◌&&◌, not, List, [], ◌∷◌, Option, none,
  some, is_some, find_by, String, str_eq, Result, ok, ◌>>=◌, ◌>>◌, guard, or_throw,
}
use rvf_malinois.WellTests.Contracts.{
  TestType, ReportType, LifecycleStatus, scheduled, connected, stabilizing, measuring, completed,
  closed, aborted, includes, active_statuses, CreateWellTestInput, ℤ,
  derive_actual_official_duration_seconds,
}
use rvf_malinois.WellTests.Table.{
  WellTest, Error, not_found, bad_request, conflict, has_id, update, insert,
}

pub record WellTestRow : Type 0 where
  pub id : Uuid
  pub job_id : Uuid
  pub well_id : Uuid
  pub unit_id : Uuid
  pub test_type : TestType
  pub report_type : ReportType
  pub lifecycle_status : LifecycleStatus
  pub planned_official_duration_hours : ℕ
  pub actual_official_duration_seconds : Option ℤ
  pub connected_at : Option Time
  pub stabilization_started_at : Option Time
  pub stabilization_ended_at : Option Time
  pub official_started_at : Option Time
  pub official_ended_at : Option Time
  pub disconnected_at : Option Time
  pub report_generated_at : Option Time
  pub aborted_at : Option Time
  pub abort_reason : Option String
  pub notes : Option String
  pub client_reference : Option String
  pub created_at : Time
  pub updated_at : Time

unfoldable pub row_to_wire : WellTest → WellTestRow
row_to_wire row = record {
  id = row.id;
  job_id = row.job_id;
  well_id = row.well_id;
  unit_id = row.unit_id;
  test_type = row.test_type;
  report_type = row.report_type;
  lifecycle_status = row.lifecycle_status;
  planned_official_duration_hours = row.planned_official_duration_hours;
  actual_official_duration_seconds =
      derive_actual_official_duration_seconds row.official_started_at row.official_ended_at;
  connected_at = row.connected_at;
  stabilization_started_at = row.stabilization_started_at;
  stabilization_ended_at = row.stabilization_ended_at;
  official_started_at = row.official_started_at;
  official_ended_at = row.official_ended_at;
  disconnected_at = row.disconnected_at;
  report_generated_at = row.report_generated_at;
  aborted_at = row.aborted_at;
  abort_reason = row.abort_reason;
  notes = row.notes;
  client_reference = row.client_reference;
  created_at = row.created_at;
  updated_at = row.updated_at;
}

-- `CallerContext`: the tenant of the caller, if the call is scoped to one.
pub record CallerContext : Type 0 where
  pub tenant_id : Option Uuid

abbrev pub Reply : Type 0
Reply = Result Error (List WellTest × WellTestRow)

-- `ctx.tenantId && tenantId !== ctx.tenantId`
abbrev pub other_tenant : Option Uuid → Uuid → Bool
other_tenant none tenant = false
other_tenant (some t) tenant = not (tenant == t)

-- `...(body.notes ? { notes: body.notes } : {})`, where the empty text counts as absent
abbrev pub patch_text : Option String → Option String → Option String
patch_text none old = old
patch_text (some s) old = if str_eq s "" then old else some s

abbrev pub patch_time : Option Time → Option Time → Option Time
patch_time none old = old
patch_time (some t) old = some t

-- `(at && now < at)`
abbrev pub is_earlier : Time → Option Time → Bool
is_earlier now none = false
is_earlier now (some at) = ltb now at

unfoldable pub load_for_transition : CallerContext → Uuid → List WellTest → Result Error WellTest
load_for_transition ctx id rows = do
  row ← or_throw (find_by (has_id id) rows) not_found
  guard (not (other_tenant ctx.tenant_id row.tenant_id)) not_found
  ok row

abbrev pub assert_transition :
    LifecycleStatus → LifecycleStatus → List LifecycleStatus → Result Error (Unit {0})
assert_transition current next allowed_from = guard (includes allowed_from current) conflict

abbrev pub is_other_active : Uuid → Uuid → Uuid → WellTest → Bool
is_other_active tenant unit self r =
    r.tenant_id == tenant
    && r.unit_id == unit
    && includes active_statuses r.lifecycle_status
    && not (r.id == self)

unfoldable pub assert_no_other_active_test_for_unit :
    Uuid → Uuid → Uuid → List WellTest → Result Error (Unit {0})
assert_no_other_active_test_for_unit tenant unit self rows =
    guard (not (is_some (find_by (is_other_active tenant unit self) rows))) conflict

-- `@updatedAt` sets the row's `updated_at` with every update.
unfoldable pub apply_update : Uuid → Time → (WellTest → WellTest) → List WellTest → Reply
unfolding update
apply_update id now patch rows = do
  updated ← update id (λ row. record (patch row) { updated_at = now }) rows
  ok (updated.0, row_to_wire updated.1)

module _ (ctx : CallerContext) (id : Uuid) (notes : Option String) (now : Time)
    (rows : List WellTest) where
  unfoldable pub connect : Reply
  connect = do
    row ← load_for_transition ctx id rows
    assert_transition row.lifecycle_status connected (scheduled ∷ [])
    assert_no_other_active_test_for_unit row.tenant_id row.unit_id id rows
    apply_update id now
        (λ r. record r {
          lifecycle_status = connected;
          connected_at = some now;
          notes = patch_text notes r.notes;
        })
        rows

  unfoldable pub start_stabilization : Reply
  start_stabilization = do
    row ← load_for_transition ctx id rows
    assert_transition row.lifecycle_status stabilizing (connected ∷ [])
    apply_update id now
        (λ r. record r {
          lifecycle_status = stabilizing;
          stabilization_started_at = some now;
          notes = patch_text notes r.notes;
        })
        rows

  unfoldable pub start_official : Reply
  start_official = do
    row ← load_for_transition ctx id rows
    assert_transition row.lifecycle_status measuring (stabilizing ∷ [])
    guard (not (is_earlier now row.stabilization_started_at)) bad_request
    apply_update id now
        (λ r. record r {
          lifecycle_status = measuring;
          official_started_at = some now;
          stabilization_ended_at = some now;
          notes = patch_text notes r.notes;
        })
        rows

  unfoldable pub end_official : Reply
  end_official = do
    row ← load_for_transition ctx id rows
    assert_transition row.lifecycle_status completed (measuring ∷ [])
    guard (not (is_earlier now row.official_started_at)) bad_request
    apply_update id now
        (λ r. record r {
          lifecycle_status = completed;
          official_ended_at = some now;
          notes = patch_text notes r.notes;
        })
        rows

  unfoldable pub abort : String → Reply
  abort reason = do
    row ← load_for_transition ctx id rows
    assert_transition row.lifecycle_status aborted
        (scheduled ∷ connected ∷ stabilizing ∷ measuring ∷ [])
    apply_update id now
        (λ r. record r {
          lifecycle_status = aborted;
          aborted_at = some now;
          abort_reason = some reason;
          notes = patch_text notes r.notes;
        })
        rows

  unfoldable pub close : Option Time → Reply
  close report_generated = do
    row ← load_for_transition ctx id rows
    assert_transition row.lifecycle_status closed (completed ∷ [])
    apply_update id now
        (λ r. record r {
          lifecycle_status = closed;
          disconnected_at = some now;
          report_generated_at = patch_time report_generated r.report_generated_at;
          notes = patch_text notes r.notes;
        })
        rows

-- The columns of `jobs` that `create` reads.
pub record Job : Type 0 where
  pub id : Uuid
  pub tenant_id : Uuid
  pub well_id : Uuid
  pub unit_id : Uuid

-- The `data` of the insert. `new_id` is what `gen_random_uuid()` returns for the row.
unfoldable pub new_row : CreateWellTestInput → Uuid → Uuid → Time → WellTest
new_row input new_id tenant_id now = record {
  id = new_id;
  tenant_id = tenant_id;
  job_id = input.job_id;
  well_id = input.well_id;
  unit_id = input.unit_id;
  test_type = input.test_type;
  report_type = input.report_type;
  lifecycle_status = scheduled;
  planned_official_duration_hours = input.planned_official_duration_hours;
  connected_at = none;
  stabilization_started_at = none;
  stabilization_ended_at = none;
  official_started_at = none;
  official_ended_at = none;
  disconnected_at = none;
  report_generated_at = none;
  aborted_at = none;
  abort_reason = none;
  notes = patch_text input.notes none;
  client_reference = patch_text input.client_reference none;
  created_at = now;
  updated_at = now;
}

unfoldable pub create :
    CallerContext → CreateWellTestInput → Uuid → Time → List Job → List WellTest → Reply
unfolding insert new_row
create ctx input new_id now jobs rows = do
  job ← or_throw (find_by (λ j. j.id == input.job_id) jobs) not_found
  guard (not (other_tenant ctx.tenant_id job.tenant_id)) not_found
  guard (job.well_id == input.well_id && job.unit_id == input.unit_id) bad_request
  created ← insert (new_row input new_id job.tenant_id now) rows
  ok (created.0, row_to_wire created.1)
