-- ===== src/WellTests/Contracts.antt =====
-- apps/backend/src/well-tests/contracts/well-tests.ts: the enumerations, the refinements of the
-- request schemas, the lengths of texts and the derived duration. The syntax of UUIDs and dates is
-- Zod's own check and is left out.
use rvf_malinois.Prelude.{
  text_schema, Uuid, Time, ℕ, ◌-◌, ◌/◌, ◌==◌, leb, ltb, if◌then◌else◌, Bool, true, false, ◌&&◌,
  ◌||◌, not, List, [], ◌∷◌, Option, none, some, is_some, any_by, String,
}

pub data TestType : Type 0 where
  fiscalizacion optimizacion : TestType

pub data ReportType : Type 0 where
  fiscalizacion_pdf optimizacion_pdf : ReportType

pub data LifecycleStatus : Type 0 where
  scheduled connected stabilizing measuring completed closed aborted : LifecycleStatus

-- The position in `WELL_TEST_LIFECYCLE_STATUSES`, by which two statuses are compared.
abbrev pub status_index : LifecycleStatus → ℕ
status_index scheduled = 0
status_index connected = 1
status_index stabilizing = 2
status_index measuring = 3
status_index completed = 4
status_index closed = 5
status_index aborted = 6

-- `list.includes(status)`
abbrev pub includes : List LifecycleStatus → LifecycleStatus → Bool
includes statuses s = any_by (λ t. status_index t == status_index s) statuses

abbrev pub active_statuses : List LifecycleStatus
active_statuses = connected ∷ stabilizing ∷ measuring ∷ []

abbrev pub same_test_type : TestType → TestType → Bool
same_test_type fiscalizacion fiscalizacion = true
same_test_type optimizacion optimizacion = true
same_test_type _ _ = false

abbrev pub same_report_type : ReportType → ReportType → Bool
same_report_type fiscalizacion_pdf fiscalizacion_pdf = true
same_report_type optimizacion_pdf optimizacion_pdf = true
same_report_type _ _ = false

unfoldable pub report_type_for : TestType → ReportType
report_type_for fiscalizacion = fiscalizacion_pdf
report_type_for optimizacion = optimizacion_pdf

unfoldable pub is_valid_duration_for_type : TestType → ℕ → Bool
is_valid_duration_for_type fiscalizacion hours = hours == 24
is_valid_duration_for_type optimizacion hours = leb 12 hours && leb hours 24

pub record CreateWellTestInput : Type 0 where
  pub job_id : Uuid
  pub well_id : Uuid
  pub unit_id : Uuid
  pub test_type : TestType
  pub report_type : ReportType
  pub planned_official_duration_hours : ℕ
  pub notes : Option String
  pub client_reference : Option String

-- `CreateWellTestSchema`: the range of the duration, the lengths of the texts and the two refinements.
unfoldable pub create_well_test_schema : CreateWellTestInput → Bool
unfolding report_type_for is_valid_duration_for_type
create_well_test_schema q =
    leb 12 q.planned_official_duration_hours
    && leb q.planned_official_duration_hours 24
    && text_schema 2000 q.notes
    && text_schema 120 q.client_reference
    && same_report_type (report_type_for q.test_type) q.report_type
    && is_valid_duration_for_type q.test_type q.planned_official_duration_hours

-- `TransitionWellTestSchema` and `CloseWellTestSchema`: their texts.
unfoldable pub notes_schema : Option String → Bool
notes_schema notes = text_schema 2000 notes

-- `AbortWellTestSchema`
unfoldable pub abort_schema : String → Option String → Bool
abort_schema reason notes = text_schema 240 (some reason) && text_schema 2000 notes

pub record ListQuery : Type 0 where
  pub unit_id : Option Uuid
  pub well_id : Option Uuid
  pub job_id : Option Uuid
  pub lifecycle_status : Option LifecycleStatus
  pub test_type : Option TestType
  pub from : Option Time
  pub to : Option Time
  pub limit : ℕ

abbrev pub strictly_before : Option Time → Option Time → Bool
strictly_before (some a) (some b) = ltb a b
strictly_before _ _ = true

-- `WellTestsListQuerySchema`: the bounds of the limit and the three refinements of the window.
unfoldable pub list_query_schema : ListQuery → Bool
list_query_schema q =
    leb 1 q.limit
    && leb q.limit 200
    && (not (is_some q.from) || is_some q.to)
    && (not (is_some q.to) || is_some q.from)
    && strictly_before q.from q.to

-- A number of seconds, which may be negative: `negsuc n` is -(n + 1).
pub data ℤ : Type 0 where
  pos : ℕ → ℤ
  negsuc : ℕ → ℤ

-- `Math.floor((ended - started) / 1000)`, rounded down on either side of zero.
unfoldable pub elapsed_seconds : Time → Time → ℤ
elapsed_seconds started ended =
    if leb started ended
    then pos ((ended - started) / 1000)
    else negsuc ((started - ended - 1) / 1000)

unfoldable pub derive_actual_official_duration_seconds : Option Time → Option Time → Option ℤ
unfolding elapsed_seconds
derive_actual_official_duration_seconds (some started) (some ended) =
    some (elapsed_seconds started ended)
derive_actual_official_duration_seconds _ _ = none
