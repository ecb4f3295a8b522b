-- ===== src/Telemetry/Tests.antt =====
-- The write path on a small database.
use rvf_malinois.Telemetry.Ingestion.Returns.{ingest_batch-returns, IsOk}
use rvf_malinois.Alarms.Evaluation.{
  create_event, on_active, raise_event, on_band, pick_violated_band, evaluate_rule, evaluate_rules,
  on_rules, evaluate,
}
use rvf_malinois.Telemetry.Ingestion.Resolution.{resolve_by, resolve_sensor_and_tag}
use rvf_malinois.Telemetry.Ingestion.Dedup.{on_duplicate_of-new_reading, clashes-is_existing}
use rvf_malinois.Telemetry.Projection.{
  new_live_row, Race, alone, count_older, update_live, create_live, create_step, others_commit,
  on_existing, find_step, update_step, update_from_accepted_telemetry, project,
}
use rvf_malinois.Telemetry.Ingestion.Sample.{process_guarded-Described, process_sample-Described}
use rvf_malinois.Telemetry.Ingestion.Outcomes.{Described}
use rvf_malinois.Telemetry.Ingestion.Service.{
  check_value, check_time, on_tag, check_unit, on_resolution, check_mapping, on_mapping, aggregate,
  each_sample, process_guarded, ingest_batch, process_sample,
}
use rvf_malinois.Store.Endings.{EndsOut}
use rvf_malinois.Store.Effects.{
  ◌>>=◌, emit_many, command, next_id, transaction, attempt, or_unexpected, query, pure, Env, World,
  Out,
}
use rvf_malinois.Telemetry.Ingestion.Storing.{
  alarm_input, per_rule_emits, live_emits, derive, create_reading, body, store_sample, identical,
  classify_dedup, on_fault, quarantine_conflict, result_at, projection_input, new_reading,
  on_duplicate_of, Normalized, SampleContext,
}
use rvf_malinois.Telemetry.Projection.Watermark.{ProjectedOut}
use rvf_malinois.Telemetry.Projection.Races.{project-Projected, holds}
use rvf_malinois.Store.Rows.{good, critical, IntegrationSource, IntegrationMapping, AlarmRule}
use rvf_malinois.Telemetry.Ingestion.Contracts.{
  number, value_schema, BatchResult, duplicate, Outcome, accepted, text, SampleResult, Sample,
  BatchInput,
}
use rvf_malinois.Telemetry.Ingestion.Readings.{insert_reading, is_existing, clashes}
use rvf_malinois.Telemetry.Ingestion.Batch.{ingest_batch-conserves, BatchOut}
use rvf_malinois.Prelude.{
  ◌||◌, not, All, length, ℕ, arith, ◌≡◌, str_eq, refl, [], ◌∷◌, some, none, ok, err, true, false,
  List, Option, if◌then◌else◌, ◌+◌,
}

-- No call throws, every text is the number and the date that it is taken for.
abbrev calm : Env
calm = record {
  fails = λ n. false;
  uuid = λ n. 100 + n;
  by_severity = λ rules. rules;
  parse_date = λ text. some 1000;
  is_finite = λ text. true;
  decimal = λ text. some text;
  greater_than = λ a b. str_eq a "99";
  less_than = λ a b. false;
}

abbrev sample : Sample
sample = record {
  external_identifier = "PT-1";
  timestamp = "1970-01-01T00:00:01Z";
  value = text "99";
  engineering_unit = "psi";
  quality = good;
  sequence = some 5;
}

abbrev plc : IntegrationSource
plc = record { id = 1; tenant_id = 9; status = "active"; kind = "plc" }

abbrev mapping : IntegrationMapping
mapping = record {
  id = 2;
  tenant_id = 9;
  integration_source_id = 1;
  external_identifier = "PT-1";
  unit_id = 3;
  sensor_id = some 4;
  canonical_tag_id = some 6;
  engineering_unit_override = none;
  enabled = true;
}

abbrev rule : AlarmRule
rule = record {
  id = 7;
  unit_id = 3;
  canonical_tag_id = 6;
  severity = critical;
  version = 1;
  is_current = true;
  enabled = true;
  low_low_threshold = none;
  low_threshold = none;
  high_threshold = some "90";
  high_high_threshold = none;
  deadband = none;
  delay_seconds = none;
  message_template = none;
}

abbrev world : World
world = record {
  db = record {
    sources = plc ∷ [];
    mappings = mapping ∷ [];
    sensors = [];
    bindings = [];
    tags = record { id = 6; canonical_unit = "psi" } ∷ [];
    rules = rule ∷ [];
    readings = [];
    live = [];
    events = [];
    errors = [];
  };
  calls = 0;
  emitted = [];
}

abbrev context : SampleContext
context = record {
  sample = sample;
  sample_index = 0;
  source = plc;
  correlation_id = none;
  now = 2000;
}

abbrev batch : BatchInput
batch = record { integration_source_id = 1; correlation_id = none; samples = sample ∷ sample ∷ [] }

abbrev normalized : Normalized
normalized = record {
  mapping = mapping;
  sensor_id = 4;
  canonical_tag_id = 6;
  timestamp = 1000;
  value = "99";
}

abbrev outcome_of : Out SampleResult → Option Outcome
outcome_of (ok r, w) = some r.outcome
outcome_of (err e, w) = none

abbrev counts_of : Out BatchResult → List ℕ
counts_of (ok r, w) =
    r.accepted_count
    ∷ r.duplicate_count
    ∷ r.conflict_quarantined_count
    ∷ r.rejected_quarantined_count
    ∷ length w.db.readings
    ∷ length w.db.live
    ∷ length w.db.events
    ∷ length w.db.errors
    ∷ length w.emitted
    ∷ []
counts_of (err e, w) = []

-- A good sample is stored with the id of its insert.
first_sample_runs : outcome_of (process_sample calm context world) ≡ some (accepted 102)
unfolding process_sample ◌>>=◌ query on_mapping check_mapping resolve_sensor_and_tag resolve_by
    on_resolution check_unit on_tag check_time check_value or_unexpected store_sample attempt
    transaction body create_reading next_id command insert_reading new_reading derive
    update_from_accepted_telemetry project update_step find_step on_existing others_commit
    create_step create_live update_live count_older evaluate on_rules evaluate_rules evaluate_rule
    pick_violated_band on_band raise_event on_active create_event emit_many pure live_emits
    per_rule_emits projection_input alarm_input
first_sample_runs = refl

-- Of a sample sent twice one is stored, projected and alarmed on, with three events, and the other
-- is a duplicate.
batch_runs : counts_of (ingest_batch calm batch 2000 world) ≡ 1 ∷ 1 ∷ 0 ∷ 0 ∷ 1 ∷ 1 ∷ 1 ∷ 0 ∷ 3 ∷ []
unfolding ingest_batch each_sample aggregate process_guarded on_fault classify_dedup on_duplicate_of
    identical process_sample ◌>>=◌ query on_mapping check_mapping resolve_sensor_and_tag resolve_by
    on_resolution check_unit on_tag check_time check_value or_unexpected store_sample attempt
    transaction body create_reading next_id command insert_reading new_reading derive
    update_from_accepted_telemetry project update_step find_step on_existing others_commit
    create_step create_live update_live count_older evaluate on_rules evaluate_rules evaluate_rule
    pick_violated_band on_band raise_event on_active create_event emit_many pure live_emits
    per_rule_emits projection_input alarm_input
batch_runs = refl

process_sample-Described_example :
    EndsOut world.db world.emitted
      (λ r. Described calm context world.db world.emitted r.outcome)
      (process_sample calm context world)
process_sample-Described_example = process_sample-Described calm context world

process_guarded-Described_example :
    EndsOut world.db world.emitted
      (λ r. Described calm context world.db world.emitted r.outcome)
      (process_guarded calm context world)
process_guarded-Described_example = process_guarded-Described calm context world

ingest_batch-conserves_example :
    BatchOut world (sample ∷ sample ∷ []) (ingest_batch calm batch 2000 world)
ingest_batch-conserves_example = ingest_batch-conserves calm batch 2000 world

clashes-is_existing_example :
    clashes (new_reading context normalized 104) (new_reading context normalized 50)
    ≡ is_existing 1 4 6 1000 (some 5) (new_reading context normalized 50)
clashes-is_existing_example =
    clashes-is_existing context normalized 104 (new_reading context normalized 50)

on_duplicate_of-new_reading_example :
    on_duplicate_of calm context normalized (some (new_reading context normalized 50)) ≡ (
      if str_eq "99" "99"
      then pure (result_at 0 duplicate)
      else quarantine_conflict calm context normalized)
on_duplicate_of-new_reading_example = on_duplicate_of-new_reading calm context normalized 50

-- Another transaction adds a row of the sensor between two statements.
abbrev adding : Race
adding n rows =
    record (new_live_row (projection_input context normalized 50) 1) { value = "7" } ∷ rows

project-Projected_example :
    ProjectedOut
      (projection_input context normalized 50)
      []
      (project calm alone (projection_input context normalized 50) world)
    × (not (holds (projection_input context normalized 50) 900 [])
          || holds
              (projection_input context normalized 50)
              900
              (project calm adding (projection_input context normalized 50) world).1.db.live
        ≡ true)
project-Projected_example =
    project-Projected (projection_input context normalized 50)
      (projection_input context normalized 50) 900 calm adding world (omega arith)
      (λ n rows h. ground (arith, h))

values_accepted : All (λ s. value_schema s.value ≡ true) batch.samples
unfolding value_schema
values_accepted = (refl, (refl, tt))

-- The schema refuses what `Number` takes and the decimal type does not.
empty_refused : value_schema (text "") ≡ false
unfolding value_schema
empty_refused = refl

number_accepted : value_schema (number "-1.5e-7") ≡ true
unfolding value_schema
number_accepted = refl

ingest_batch-returns_example : IsOk (ingest_batch calm batch 2000 world)
ingest_batch-returns_example =
    ingest_batch-returns calm (λ i. refl) (λ v h. refl) batch 2000 world values_accepted
