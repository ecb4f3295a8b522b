-- ===== src/WellTests/Tests.antt =====
-- The lifecycle of one test on a small table.
use rvf_malinois.WellTests.Lifecycle.Overlap.{Reach-one_active}
use rvf_malinois.WellTests.Lifecycle.Constraints.{IsSound}
use rvf_malinois.WellTests.Lifecycle.{request_schema, connects, aborts, perform}
use rvf_malinois.WellTests.Table.{
  replace, update, contract_chk, conflict, check_violation, not_found, temporal_chk,
  status_timestamps_chk, insert, row_chk, WellTest,
}
use rvf_malinois.WellTests.Lifecycle.Edges.{
  perform-other_tenant, perform-terminal, perform-Advances, Advances,
}
use rvf_malinois.WellTests.Lifecycle.Soundness.{
  Reach-ne-check_violation, empty, Reach-IsSound, created, performed, Reach,
}
use rvf_malinois.WellTests.Service.{
  apply_update, assert_no_other_active_test_for_unit, load_for_transition, row_to_wire, connect,
  Job, create, CallerContext, new_row,
}
use rvf_malinois.Prelude.{
  utf16_length, false, true, arith, here, ◌≢◌, ◌≡◌, All, refl, [], ◌∷◌, some, none, inl, ok, err,
  List,
}
use rvf_malinois.WellTests.Contracts.{
  is_valid_duration_for_type, report_type_for, CreateWellTestInput, optimizacion, optimizacion_pdf,
  connected, closed, completed,
}

abbrev input : CreateWellTestInput
input = record {
  job_id = 1;
  well_id = 2;
  unit_id = 3;
  test_type = optimizacion;
  report_type = optimizacion_pdf;
  planned_official_duration_hours = 12;
  notes = none;
  client_reference = none;
}

abbrev jobs : List Job
jobs = record { id = 1; tenant_id = 9; well_id = 2; unit_id = 3 } ∷ []

abbrev caller : CallerContext
caller = record { tenant_id = some 9 }

abbrev stranger : CallerContext
stranger = record { tenant_id = some 8 }

abbrev first_row : WellTest
first_row = new_row input 7 9 1000

abbrev connected_row : WellTest
connected_row = record first_row {
  lifecycle_status = connected;
  connected_at = some 2000;
  updated_at = 2000;
}

abbrev finished_row : WellTest
finished_row = record first_row {
  lifecycle_status = completed;
  connected_at = some 2000;
  stabilization_started_at = some 3000;
  stabilization_ended_at = some 4000;
  official_started_at = some 4000;
  official_ended_at = some 9500;
}

abbrev closed_row : WellTest
closed_row = record finished_row { lifecycle_status = closed; disconnected_at = some 9600 }

connect_runs :
    perform caller 7 none 2000 (first_row ∷ []) connects
    ≡ ok (connected_row ∷ [], row_to_wire connected_row)
unfolding perform connect load_for_transition assert_no_other_active_test_for_unit apply_update
    update replace row_chk status_timestamps_chk temporal_chk contract_chk report_type_for
    is_valid_duration_for_type new_row
connect_runs = refl

create_runs : create caller input 7 1000 jobs [] ≡ ok (first_row ∷ [], row_to_wire first_row)
unfolding create insert row_chk status_timestamps_chk temporal_chk contract_chk report_type_for
    is_valid_duration_for_type new_row
create_runs = refl

connected_reached : Reach jobs 2000 (connected_row ∷ [])
connected_reached =
    performed (created (empty 0) (omega arith) caller input 7 create_runs) (omega arith) caller 7
      none connects connect_runs

finished-IsSound : IsSound 9500 finished_row
unfolding row_chk status_timestamps_chk temporal_chk contract_chk report_type_for
    is_valid_duration_for_type new_row
finished-IsSound = record {
  checked = refl;
  unreached = (refl, refl);
  connected_past = omega arith;
  stabilization_past = omega arith;
  official_past = omega arith;
  aborted_after = refl;
  together = refl;
  disconnected_after = refl;
}

perform-Advances_example :
    Advances caller 7 2000 (first_row ∷ []) (connected_row ∷ []) (row_to_wire connected_row)
perform-Advances_example =
    perform-Advances caller 7 none 2000 (first_row ∷ []) connects connect_runs

perform-terminal_example :
    perform caller 7 none 9700 (closed_row ∷ []) (aborts "leak") ≡ err conflict
unfolding new_row
perform-terminal_example =
    perform-terminal caller 7 none 9700 (closed_row ∷ []) (aborts "leak") closed_row refl refl
      (inl refl)

perform-other_tenant_example :
    perform stranger 7 none 2000 (first_row ∷ []) connects ≡ err not_found
unfolding new_row
perform-other_tenant_example =
    perform-other_tenant stranger 7 none 2000 (first_row ∷ []) connects 8 first_row refl refl
      (λ e. omega arith)

Reach-IsSound_example : All (IsSound 2000) (connected_row ∷ [])
Reach-IsSound_example = Reach-IsSound connected_reached

leak_accepted : request_schema (aborts "leak") (some "shut in") ≡ true
unfolding request_schema utf16_length
leak_accepted = refl

Reach-ne-check_violation_example :
    perform caller 7 (some "shut in") 2500 (connected_row ∷ []) (aborts "leak")
    ≢ err check_violation
Reach-ne-check_violation_example =
    Reach-ne-check_violation connected_reached (omega arith) caller 7 (some "shut in")
      (aborts "leak") leak_accepted

-- The schema refuses an empty reason.
no_reason_refused : request_schema (aborts "") none ≡ false
unfolding request_schema utf16_length
no_reason_refused = refl

Reach-one_active_example : connected_row.id ≡ connected_row.id
unfolding new_row
Reach-one_active_example =
    Reach-one_active connected_reached connected_row connected_row here here refl refl refl refl
