-- ===== src/Web/Selectors/Honesty.antt =====
-- What the selectors never say of a silent signal.
use rvf_malinois.Prelude.{
  Option, none, some, Time, true, false, ◌≡◌, ap, ◌∙◌, Bool-cases, inl, inr, Option-cases,
}
use rvf_malinois.Web.Models.{
  Platform, JobId, CanonicalTag, TelemetryReading, CommissioningSnapshot, AlarmState,
  AlarmEvaluationResult,
}
use rvf_malinois.Web.TelemetryStore.{TelemetryStore, get_latest_reading}
use rvf_malinois.Web.Stale.{compute_stale_from_snapshot}
use rvf_malinois.Web.Evaluator.{evaluate_reading, is_enabled, mapping_of, is_bad}
use rvf_malinois.Web.Evaluator.Bounds.{evaluate_reading-normal, WithinAll}
use rvf_malinois.Web.Selectors.{is_silent, alarm_state_of, select_alarm_state}

-- The state of a result, or of none a state that is not normal.
shown : Option AlarmEvaluationResult → AlarmState
shown none = AlarmState.disabled
shown (some result) = result.state

module _ (js : Platform) (store : TelemetryStore) (snapshot : CommissioningSnapshot)
    (job_id : JobId) where
  -- A signal that is neither stale nor offline, with a value that its thresholds allow.
  abbrev pub Sound : CanonicalTag → Time → TelemetryReading → Type 0
  Sound tag now r =
      (is_silent (compute_stale_from_snapshot js job_id tag (some r.ts) now snapshot).status
        ≡ false)
      × (is_enabled (mapping_of r.tag snapshot) ≡ true)
      × (is_bad r.quality ≡ false)
      × WithinAll js r.value (snapshot.effective_thresholds r.tag)

  alarm_state_of-normal :
      (tag : CanonicalTag) (now : Time) (r : TelemetryReading) (result : AlarmEvaluationResult)
      → alarm_state_of js store snapshot job_id tag now (some r) ≡ some result
      → result.state ≡ AlarmState.normal
      → Sound tag now r
  unfolding alarm_state_of shown
  alarm_state_of-normal tag now r result e n =
      elim (Bool-cases
        (is_silent (compute_stale_from_snapshot js job_id tag (some r.ts) now snapshot).status)) [
          | inl s ↦
              let q = ap shown (rw s at e) in
              let c : AlarmState.no_data ≡ AlarmState.normal = q ∙ n in cc
          | inr s ↦
              let q : (evaluate_reading js r snapshot (js.to_iso now)).state ≡ AlarmState.normal =
                ap shown (rw s at e) ∙ n in
              let (a, b, c) = (evaluate_reading-normal js r snapshot (js.to_iso now)).0 q in
              (s, a, b, c)
        ]

  -- A tag is shown as normal only on its latest reading, while that reading is neither stale nor
  -- offline, its sensor is enabled, its quality is not bad and its value is within the thresholds
  -- of the snapshot.
  pub select_alarm_state-normal :
      (tag : CanonicalTag) (now : Time) (result : AlarmEvaluationResult)
      → select_alarm_state js store snapshot job_id tag now ≡ some result
      → result.state ≡ AlarmState.normal
      → (r : TelemetryReading) × (get_latest_reading job_id tag store ≡ some r) × Sound tag now r
  unfolding select_alarm_state alarm_state_of
  select_alarm_state-normal tag now result e n =
      elim (Option-cases (get_latest_reading job_id tag store)) [
        | inl o ↦ let q : none ≡ some result = rw o at e in cc
        | inr (r, o) ↦ (r, o, alarm_state_of-normal tag now r result (rw o at e) n)
      ]
