-- ===== src/Web/Operations/Summary.antt =====
-- The header's summary against the states that the selectors give the tiles.
use rvf_malinois.Web.Models.{Platform, ActiveJobSnapshot, FrozenSensorMapping, AlarmState}
use rvf_malinois.Web.Selectors.{is_silent, alarm_of_mapping, select_stale_state}
use rvf_malinois.Web.TelemetryStore.{TelemetryStore, get_latest_reading}
use rvf_malinois.Web.Operations.{
  Counts, Tone, is_process_alarm, is_warning, count_mapping, count_mappings, count_jobs,
  summarize_alarms, tone_of,
}
use rvf_malinois.Prelude.{
  ℕ, ◌+◌, ◌≡◌, Time, String, Bool, ◌&&◌, if◌then◌else◌, List, [], ◌∷◌, count_by, arith, ltb, inl,
  inr, Option-cases,
}

module _ (js : Platform) (store : TelemetryStore) (now : Time) where
  -- What `selectUnitTelemetrySnapshot` shows for a sensor of a job.
  abbrev pub shown : ActiveJobSnapshot → FrozenSensorMapping → AlarmState
  shown job m =
      alarm_of_mapping js store job.snapshot job.job_id m
        (select_stale_state js store job.snapshot job.job_id m.canonical_tag now).status
        (get_latest_reading job.job_id m.canonical_tag store) now

  -- An enabled sensor whose latest reading is stale, offline or missing.
  abbrev pub is_stale : ActiveJobSnapshot → FrozenSensorMapping → Bool
  is_stale job m =
      m.enabled
      && is_silent (select_stale_state js store job.snapshot job.job_id m.canonical_tag now).status

  record Adds (job : ActiveJobSnapshot) (m : FrozenSensorMapping) (c c' : Counts) : Type 0 where
    alarms : c'.alarm_count ≡ c.alarm_count + (if is_process_alarm (shown job m) then 1 else 0)
    warnings : c'.warning_count ≡ c.warning_count + (if is_warning (shown job m) then 1 else 0)
    stales : c'.stale_count ≡ c.stale_count + (if is_stale job m then 1 else 0)

  count_mapping-Adds :
      (job : ActiveJobSnapshot) (m : FrozenSensorMapping) (c : Counts)
      → Adds job m c (count_mapping js store job now m c)
  unfolding count_mapping alarm_of_mapping select_stale_state
  count_mapping-Adds job m c =
      elim (Option-cases (get_latest_reading job.job_id m.canonical_tag store)) [
        | inl e ↦ ground arith
        | inr (r, e) ↦ ground arith
      ]

  -- The sums over the sensors of a job, and over the jobs.
  abbrev pub over : (ActiveJobSnapshot → FrozenSensorMapping → Bool) → List ActiveJobSnapshot → ℕ
  over p [] = 0
  over p (job ∷ jobs) = count_by (p job) job.snapshot.sensors + over p jobs

  record AddsAll (job : ActiveJobSnapshot) (ms : List FrozenSensorMapping) (c c' : Counts)
      : Type 0 where
    alarms : c'.alarm_count ≡ c.alarm_count + count_by (λ m. is_process_alarm (shown job m)) ms
    warnings : c'.warning_count ≡ c.warning_count + count_by (λ m. is_warning (shown job m)) ms
    stales : c'.stale_count ≡ c.stale_count + count_by (is_stale job) ms

  count_mappings-AddsAll :
      (job : ActiveJobSnapshot) (ms : List FrozenSensorMapping) (c : Counts)
      → AddsAll job ms c (count_mappings js store job now ms c)
  unfolding count_mappings
  count_mappings-AddsAll job [] c = ground arith
  count_mappings-AddsAll job (m ∷ ms) c =
      let one = count_mapping-Adds job m c in
      let rest = count_mappings-AddsAll job ms (count_mapping js store job now m c) in ground arith

  -- The numbers of the summary, from `c` on.
  pub record Summed (jobs : List ActiveJobSnapshot) (c c' : Counts) : Type 0 where
    pub alarms :
        c'.alarm_count ≡ c.alarm_count + over (λ job m. is_process_alarm (shown job m)) jobs
    pub warnings :
        c'.warning_count ≡ c.warning_count + over (λ job m. is_warning (shown job m)) jobs
    pub stales : c'.stale_count ≡ c.stale_count + over is_stale jobs

  count_jobs-Summed :
      (jobs : List ActiveJobSnapshot) (c : Counts) → Summed jobs c (count_jobs js store now jobs c)
  unfolding count_jobs
  count_jobs-Summed [] c = ground arith
  count_jobs-Summed (job ∷ jobs) c =
      let one = count_mappings-AddsAll job job.snapshot.sensors c in
      let rest = count_jobs-Summed jobs (count_mappings js store job now job.snapshot.sensors c) in
      ground arith

  abbrev pub no_counts : Counts
  no_counts = record { alarm_count = 0; warning_count = 0; stale_count = 0 }

  -- The summary counts, over the sensors of all jobs, those that the selectors show in an alarm band,
  -- those that they show in a warning band, and the enabled ones that are stale or offline; its tone
  -- is the first of alarm, warning and stale of which there is one, and normal if there is none.
  pub summarize_alarms-Summed :
      (show : ℕ → String) (jobs : List ActiveJobSnapshot)
      → Summed jobs no_counts (summarize_alarms js store show jobs now).counts
        × ((summarize_alarms js store show jobs now).tone ≡ (
            if ltb 0 (over (λ job m. is_process_alarm (shown job m)) jobs)
            then Tone.alarm
            else if ltb 0 (over (λ job m. is_warning (shown job m)) jobs)
            then Tone.warn
            else if ltb 0 (over is_stale jobs)
            then Tone.stale
            else Tone.normal))
  unfolding summarize_alarms tone_of
  summarize_alarms-Summed show jobs =
      let all = count_jobs-Summed jobs no_counts in (all, ground arith)
