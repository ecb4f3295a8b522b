-- ===== src/Web/WellTestWindow/Tests.antt =====
-- The pills of a test that is measuring.
use rvf_malinois.WellTests.Contracts.{
  measuring, fiscalizacion, fiscalizacion_pdf, report_type_for, is_valid_duration_for_type,
}
use rvf_malinois.WellTests.Table.{WellTest, row_chk}
use rvf_malinois.WellTests.Service.{row_to_wire}
use rvf_malinois.WellTests.Lifecycle.Constraints.{IsSound}
use rvf_malinois.Web.Models.{Platform}
use rvf_malinois.Web.WellTestWindow.{WellTestPillId, quantize, derive_well_test_window}
use rvf_malinois.Web.WellTestWindow.Ordered.{IsOrdered, received, derive_well_test_window-IsOrdered}
use rvf_malinois.Prelude.{ℕ, zero, suc, Time, String, none, some, leb, ◌==◌, ◌≡◌, ap, refl, arith}

-- Instants written as so many strokes.
strokes : ℕ → String
strokes zero = String.[]
strokes (suc n) = String.◌∷◌ "|" (strokes n)

count : String → ℕ
count String.[] = 0
count (String.◌∷◌ c s) = suc (count s)

count-strokes : (n : ℕ) → count (strokes n) ≡ n
unfolding strokes count
count-strokes zero = refl
count-strokes (suc n) = ap suc (count-strokes n)

abbrev js : Platform
js = record {
  number_ge = λ a b. leb b a;
  number_le = leb;
  number_eq = λ a b. a == b;
  parse_date = λ text. some (count text);
  to_iso = strokes;
}

parse-to_iso : (t : Time) → js.parse_date (js.to_iso t) ≡ some t
parse-to_iso t = ap some (count-strokes t)

abbrev measured : WellTest
measured = record {
  id = 7;
  tenant_id = 1;
  job_id = 2;
  well_id = 3;
  unit_id = 4;
  test_type = fiscalizacion;
  report_type = fiscalizacion_pdf;
  lifecycle_status = measuring;
  planned_official_duration_hours = 24;
  connected_at = some 10;
  stabilization_started_at = some 20;
  stabilization_ended_at = some 30;
  official_started_at = some 30;
  official_ended_at = none;
  disconnected_at = none;
  report_generated_at = none;
  aborted_at = none;
  abort_reason = none;
  notes = none;
  client_reference = none;
  created_at = 5;
  updated_at = 30;
}

measured-IsSound : IsSound 40 measured
unfolding row_chk report_type_for is_valid_duration_for_type
measured-IsSound = record {
  checked = refl;
  unreached = (refl, refl, refl);
  connected_past = omega arith;
  stabilization_past = omega arith;
  official_past = omega arith;
  aborted_after = refl;
  together = refl;
  disconnected_after = refl;
}

derive_well_test_window-IsOrdered_example : IsOrdered (
    derive_well_test_window js
      (some (received js (row_to_wire measured)))
      WellTestPillId.official_window
      40)
derive_well_test_window-IsOrdered_example =
    derive_well_test_window-IsOrdered js parse-to_iso measured 40 WellTestPillId.official_window
      measured-IsSound

-- The clock that the hook reads is rounded down to 15 s. For a measurement that started since then
-- the window ends before it starts.
inverted :
    (derive_well_test_window js
      (some (received js (row_to_wire measured)))
      WellTestPillId.official_window
      (quantize 40)).to_ms
    ≡ some 0
unfolding derive_well_test_window received row_to_wire quantize
inverted = refl
