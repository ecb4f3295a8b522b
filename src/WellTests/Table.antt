-- ===== src/WellTests/Table.antt =====
-- The `well_tests` table: its row, the CHECK constraints of migration.sql over one row, and the
-- statements that the service sends.
use rvf_malinois.Prelude.{
  length_chk, Uuid, Time, ℕ, ◌==◌, leb, if◌then◌else◌, Bool, true, false, ◌&&◌, List, [], ◌∷◌,
  Option, some, is_some, find_by, String, Result, ok, ◌>>=◌, ◌>>◌, guard, or_throw,
}
use rvf_malinois.WellTests.Contracts.{
  TestType, ReportType, LifecycleStatus, scheduled, connected, stabilizing, measuring, completed,
  closed, aborted, report_type_for, same_report_type, is_valid_duration_for_type,
}

pub record WellTest : Type 0 where
  pub id : Uuid
  pub tenant_id : Uuid
  pub job_id : Uuid
  pub well_id : Uuid
  pub unit_id : Uuid
  pub test_type : TestType
  pub report_type : ReportType
  pub lifecycle_status : LifecycleStatus
  pub planned_official_duration_hours : ℕ
  pub connected_at : Option Time
  pub stabilization_started_at : Option Time
  pub stabilization_ended_at : Option Time
  pub official_started_at : Option Time
  pub official_ended_at : Option Time
  pub disconnected_at : Option Time
  pub report_generated_at : Option Time
  pub aborted_at : Option Time
  pub abort_reason : Option String
  pub notes : Option String
  pub client_reference : Option String
  pub created_at : Time
  pub updated_at : Time

-- `a IS NULL OR b IS NULL OR a >= b`
abbrev pub not_before : Option Time → Option Time → Bool
not_before (some a) (some b) = leb b a
not_before _ _ = true

-- `a = b` in the constraint that asks for both to be present
abbrev pub same_instant : Option Time → Option Time → Bool
same_instant (some a) (some b) = a == b
same_instant _ _ = false

-- `a IS NULL OR b IS NULL OR a = b`
abbrev pub same_if_both : Option Time → Option Time → Bool
same_if_both (some a) (some b) = a == b
same_if_both _ _ = true

abbrev pub measured : WellTest → Bool
measured r =
    is_some r.connected_at
    && is_some r.stabilization_started_at
    && same_instant r.stabilization_ended_at r.official_started_at

-- `well_tests_status_timestamps_chk`
unfoldable pub status_timestamps_chk : LifecycleStatus → WellTest → Bool
status_timestamps_chk scheduled r = true
status_timestamps_chk connected r = is_some r.connected_at
status_timestamps_chk stabilizing r = is_some r.connected_at && is_some r.stabilization_started_at
status_timestamps_chk measuring r = measured r
status_timestamps_chk completed r = measured r && is_some r.official_ended_at
status_timestamps_chk closed r =
    measured r && is_some r.official_ended_at && is_some r.disconnected_at
status_timestamps_chk aborted r = is_some r.aborted_at && is_some r.abort_reason

-- The four constraints on the order of the instants.
unfoldable pub temporal_chk : WellTest → Bool
temporal_chk r =
    not_before r.stabilization_started_at r.connected_at
    && not_before r.official_started_at r.stabilization_started_at
    && not_before r.official_ended_at r.official_started_at
    && same_if_both r.stabilization_ended_at r.official_started_at

-- The pairing of test and report type, and the planned duration.
unfoldable pub contract_chk : WellTest → Bool
contract_chk r =
    same_report_type (report_type_for r.test_type) r.report_type
    && is_valid_duration_for_type r.test_type r.planned_official_duration_hours

-- The three constraints on the lengths of texts.
unfoldable pub text_length_chk : Option String → Option String → Option String → Bool
text_length_chk abort_reason notes client_reference =
    length_chk 240 abort_reason && length_chk 2000 notes && length_chk 120 client_reference

unfoldable pub row_chk : WellTest → Bool
unfolding status_timestamps_chk temporal_chk contract_chk text_length_chk
row_chk r =
    status_timestamps_chk r.lifecycle_status r
    && temporal_chk r
    && contract_chk r
    && text_length_chk r.abort_reason r.notes r.client_reference

-- What a request can be answered with instead of a row: three HTTP exceptions, and the two database
-- errors that the service does not catch.
pub data Error : Type 0 where
  not_found bad_request conflict : Error
  record_not_found check_violation : Error

abbrev pub has_id : Uuid → WellTest → Bool
has_id id r = r.id == id

unfoldable pub replace : Uuid → WellTest → List WellTest → List WellTest
replace id new [] = []
replace id new (r ∷ rs) = (if has_id id r then new else r) ∷ replace id new rs

-- `prisma.wellTest.update({ where: { id }, data })`
unfoldable pub update :
    Uuid → (WellTest → WellTest) → List WellTest → Result Error (List WellTest × WellTest)
update id patch rows = do
  row ← or_throw (find_by (has_id id) rows) record_not_found
  guard (row_chk (patch row)) check_violation
  ok (replace id (patch row) rows, patch row)

-- `prisma.wellTest.create({ data })`
unfoldable pub insert : WellTest → List WellTest → Result Error (List WellTest × WellTest)
insert row rows = do guard (row_chk row) check_violation; ok (row ∷ rows, row)
