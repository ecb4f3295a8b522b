-- ===== src/Web/Evaluator/Bounds.antt =====
-- When a reading is normal.
use rvf_malinois.Prelude.{
  Option, none, some, String, true, false, ◌≡◌, ◌↔◌, arith, refl, Bool-cases, inl, inr,
}
use rvf_malinois.Web.Models.{
  Platform, Number, TelemetryReading, CommissioningSnapshot, VariableThresholds, AlarmState,
}
use rvf_malinois.Web.Evaluator.{
  evaluate_reading, compare_bounds, on_thresholds, on_value, build_result, reaches, is_enabled,
  mapping_of, is_bad,
}

module _ (js : Platform) where
  -- A value lies strictly within every bound that its tag has.
  abbrev pub Within : Number → VariableThresholds → Type 0
  Within v t =
      (reaches (js.number_ge v) t.alarm_high ≡ false)
      × (reaches (js.number_le v) t.alarm_low ≡ false)
      × (reaches (js.number_ge v) t.warning_high ≡ false)
      × (reaches (js.number_le v) t.warning_low ≡ false)

  abbrev pub WithinAll : Option Number → Option VariableThresholds → Type 0
  WithinAll none t = ⊥
  WithinAll (some v) none = ⊥
  WithinAll (some v) (some t) = Within v t

  compare_bounds-normal :
      (r : TelemetryReading) (v : Number) (t : VariableThresholds) (iso : String)
      → ((compare_bounds js r v t iso).state ≡ AlarmState.normal) ↔ Within v t
  unfolding compare_bounds build_result
  compare_bounds-normal r v t iso = ground arith

  on_value-normal :
      (r : TelemetryReading) (v : Option Number) (t : Option VariableThresholds) (iso : String)
      → ((on_value js r v t iso).state ≡ AlarmState.normal) ↔ WithinAll v t
  unfolding on_value on_thresholds build_result
  on_value-normal r none t iso = ground arith
  on_value-normal r (some v) none iso = ground arith
  on_value-normal r (some v) (some t) iso = compare_bounds-normal r v t iso

  -- A reading is normal exactly when its sensor is mapped and enabled, its quality is not bad, its
  -- value is not null, the snapshot has thresholds for its tag, and the value lies strictly within
  -- each of those that are set.
  pub evaluate_reading-normal :
      (r : TelemetryReading) (snapshot : CommissioningSnapshot) (iso : String)
      → ((evaluate_reading js r snapshot iso).state ≡ AlarmState.normal) ↔ (
          (is_enabled (mapping_of r.tag snapshot) ≡ true)
          × (is_bad r.quality ≡ false)
          × WithinAll r.value (snapshot.effective_thresholds r.tag))
  unfolding evaluate_reading build_result
  evaluate_reading-normal r snapshot iso =
      let inner = on_value-normal r r.value (snapshot.effective_thresholds r.tag) iso in
      elim (Bool-cases (is_enabled (mapping_of r.tag snapshot))) [
        | inl e ↦ elim (Bool-cases (is_bad r.quality)) [
          | inl b ↦ rw (e, b) (ground arith)
          | inr b ↦ rw (e, b) (λ n. (refl, refl, inner.0 n), λ w. inner.1 w.2)
        ]
        | inr e ↦ rw e (ground arith)
      ]
