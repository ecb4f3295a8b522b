-- ===== src/Telemetry/Ingestion/Sample.antt =====
-- `processSample` from its guards to the transaction.
use rvf_malinois.Telemetry.Ingestion.Commit.{store_sample-Meets}
use rvf_malinois.Telemetry.Ingestion.Sections.{quarantine_result-Meets}
use rvf_malinois.Store.Endings.{
  EndsOut, Ends-or_unexpected, Ends-bind, Ends-query, Ends-attempt, Ends-if,
}
use rvf_malinois.Store.Frames.{Keeps-query, keeps_rules, Same, Keeps}
use rvf_malinois.Telemetry.Ingestion.Contracts.{
  value_str, ingestion_max_future_skew_ms, ingestion_max_late_window_ms,
}
use rvf_malinois.Telemetry.Ingestion.Outcomes.{Described, Meets}
use rvf_malinois.Telemetry.Ingestion.Resolution.{
  failed, resolved, Resolution, resolve_sensor_and_tag, resolve_by,
}
use rvf_malinois.Realtime.Events.{PendingRealtimeEmit}
use rvf_malinois.Store.Rows.{CanonicalTag, IntegrationMapping, Db}
use rvf_malinois.Telemetry.Ingestion.Service.{
  or_default, is_mapping, check_unit, on_resolution, on_tag, check_time, check_value, check_mapping,
  process_guarded, process_sample, on_mapping, is_late, is_future,
}
use rvf_malinois.Telemetry.Ingestion.Storing.{SampleContext}
use rvf_malinois.Prelude.{
  not, ◌∙◌, str_eq, ◌==◌, arith, Uuid, ◌+◌, find_by, ◌≤◌, ◌≡◌, Option, Time, List, true, false,
  refl, sym, some, none,
}
use rvf_malinois.Store.Effects.{World, Env}

not_future_lem :
    (now : Time) (at : Option Time) (t : Time)
    → is_future now at ≡ false
    → at ≡ some t
    → t ≤ now + ingestion_max_future_skew_ms
not_future_lem now at t f e = ground arith

not_late_lem :
    (now : Time) (at : Option Time) (t : Time)
    → is_late now at ≡ false
    → at ≡ some t
    → now ≤ t + ingestion_max_late_window_ms
not_late_lem now at t f e = ground arith

module _ (env : Env) (ctx : SampleContext) (d : Db) (em : List PendingRealtimeEmit) where
  -- What each section of the guards has seen so far.
  record MappingOk (mapping : IntegrationMapping) : Type 0 where
    pub found : find_by (is_mapping env ctx) d.mappings ≡ some mapping
    pub is_enabled : mapping.enabled ≡ true
    pub same_tenant : mapping.tenant_id ≡ ctx.source.tenant_id

  record UnitOk (mapping : IntegrationMapping) (tag : Uuid) : Type 0 where
    pub row : CanonicalTag
    pub row_found : find_by (λ t. t.id == tag) d.tags ≡ some row
    pub agrees :
        str_eq ctx.sample.engineering_unit
          (or_default mapping.engineering_unit_override row.canonical_unit)
        ≡ true

  module _ (mapping : IntegrationMapping) (mapping_ok : MappingOk mapping) where
    check_value-Meets :
        (sensor tag : Uuid) (at : Option Time)
        → UnitOk mapping tag
        → at ≡ env.parse_date ctx.sample.timestamp
        → is_future ctx.now at ≡ false
        → is_late ctx.now at ≡ false
        → Meets env ctx d em (check_value env ctx mapping sensor tag at)
    unfolding check_value
    check_value-Meets sensor tag at u p f l =
        Ends-if (env.is_finite (value_str ctx.sample.value)) _ _
          (λ finite.
            Ends-or_unexpected (env.decimal (value_str ctx.sample.value)) _ (λ value parsed.
              Ends-or_unexpected at _ (λ timestamp timed.
                store_sample-Meets d em env ctx _ (record {
                  mapping_found = mapping_ok.found;
                  mapping_enabled = mapping_ok.is_enabled;
                  mapping_tenant = mapping_ok.same_tenant;
                  tag = u.row;
                  tag_found = u.row_found;
                  unit_agrees = u.agrees;
                  timestamp_parsed = sym p ∙ timed;
                  not_future = not_future_lem ctx.now at timestamp f timed;
                  not_late = not_late_lem ctx.now at timestamp l timed;
                  value_finite = finite;
                  value_parsed = parsed;
                }))))
          (λ e. quarantine_result-Meets _ ctx.sample_index refl)

    check_time-Meets :
        (sensor tag : Uuid)
        → UnitOk mapping tag
        → Meets env ctx d em (check_time env ctx mapping sensor tag)
    unfolding check_time
    check_time-Meets sensor tag u =
        Ends-if (is_future ctx.now (env.parse_date ctx.sample.timestamp)) _ _
          (λ e. quarantine_result-Meets _ ctx.sample_index refl)
          (λ f.
            Ends-if (is_late ctx.now (env.parse_date ctx.sample.timestamp)) _ _
              (λ e. quarantine_result-Meets _ ctx.sample_index refl)
              (λ l. check_value-Meets sensor tag _ u refl f l))

    on_tag-Meets :
        (sensor tag : Uuid) (o : Option CanonicalTag)
        → find_by (λ t. t.id == tag) d.tags ≡ o
        → Meets env ctx d em (on_tag env ctx mapping sensor tag o)
    unfolding on_tag
    on_tag-Meets sensor tag none e = quarantine_result-Meets _ ctx.sample_index refl
    on_tag-Meets sensor tag (some t) e =
        Ends-if _ _ _
          (λ u. check_time-Meets sensor tag (record { row = t; row_found = e; agrees = u }))
          (λ u. quarantine_result-Meets _ ctx.sample_index refl)

    on_resolution-Meets : (r : Resolution) → Meets env ctx d em (on_resolution env ctx mapping r)
    unfolding on_resolution check_unit
    on_resolution-Meets (resolved sensor tag) = Ends-query env _ _ (on_tag-Meets sensor tag _ refl)
    on_resolution-Meets (failed sensor tag reason) = quarantine_result-Meets _ ctx.sample_index refl

  resolve_by-Keeps :
      (unit : Uuid) (sensor tag : Option Uuid) → Keeps (Same d em) (resolve_by env unit sensor tag)
  unfolding resolve_by
  resolve_by-Keeps unit (some sensor) (some tag) = search keeps_rules
  resolve_by-Keeps unit none (some tag) = search (keeps_rules, Keeps-query)
  resolve_by-Keeps unit (some sensor) none = search (keeps_rules, Keeps-query)
  resolve_by-Keeps unit none none = search keeps_rules

  on_mapping-Meets :
      (o : Option IntegrationMapping)
      → find_by (is_mapping env ctx) d.mappings ≡ o
      → Meets env ctx d em (on_mapping env ctx o)
  unfolding on_mapping check_mapping resolve_sensor_and_tag
  on_mapping-Meets none e = quarantine_result-Meets _ ctx.sample_index refl
  on_mapping-Meets (some mapping) e =
      Ends-if (not mapping.enabled) _ _ (λ b. quarantine_result-Meets _ ctx.sample_index refl)
        (λ enabled.
          Ends-if (not (mapping.tenant_id == ctx.source.tenant_id)) _ _
            (λ b. quarantine_result-Meets _ ctx.sample_index refl)
            (λ tenant.
              Ends-bind _ _
                (resolve_by-Keeps mapping.unit_id mapping.sensor_id mapping.canonical_tag_id)
                (on_resolution-Meets mapping
                  (record { found = e; is_enabled = ground arith; same_tenant = ground arith }))))

  process_sample-Meets : Meets env ctx d em (process_sample env ctx)
  unfolding process_sample
  process_sample-Meets = Ends-query env _ _ (on_mapping-Meets _ refl)

  process_guarded-Meets : Meets env ctx d em (process_guarded env ctx)
  unfolding process_guarded
  process_guarded-Meets =
      Ends-attempt _ _ process_sample-Meets (λ e. quarantine_result-Meets _ ctx.sample_index refl)

-- What `processSample` does agrees with the outcome it returns, from any tables and log: `accepted`
-- adds one canonical reading, of the source's tenant and the mapping's unit, made from a mapping, a
-- tag, a timestamp and a value that pass every guard, changes at most the two derived tables besides, and announces the reading first and after
-- it only events of the tenant of the source;
-- `duplicate` changes and announces nothing; a quarantine outcome adds one quarantine row with its
-- id and reason, changes nothing else and announces nothing; a throw changes and announces nothing.
pub process_sample-Described :
    (env : Env) (ctx : SampleContext) (w : World)
    → EndsOut w.db w.emitted
        (λ r. Described env ctx w.db w.emitted r.outcome)
        (process_sample env ctx w)
process_sample-Described env ctx w =
    (process_sample-Meets env ctx w.db w.emitted).at w
      (record { db_same = refl; emitted_same = refl })

-- As the batch loop runs a sample, with a throw turned into a quarantine row, what it does agrees
-- with the outcome in the same way: `accepted` adds one canonical reading that passed every guard
-- and announces it first, `duplicate` changes nothing, and a quarantine outcome adds one quarantine
-- row and nothing else; a throw of that row's own insert changes and announces nothing.
pub process_guarded-Described :
    (env : Env) (ctx : SampleContext) (w : World)
    → EndsOut w.db w.emitted
        (λ r. Described env ctx w.db w.emitted r.outcome)
        (process_guarded env ctx w)
process_guarded-Described env ctx w =
    (process_guarded-Meets env ctx w.db w.emitted).at w
      (record { db_same = refl; emitted_same = refl })
