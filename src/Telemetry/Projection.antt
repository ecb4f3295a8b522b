-- ===== src/Telemetry/Projection.antt =====
-- apps/backend/src/telemetry/projection/live-readings-projection.service.ts, over the `live_readings`
-- table with its UNIQUE constraint on unit, sensor and tag.
pub mod Watermark
pub mod Races
pub mod Leaves
use rvf_malinois.Store.Rows.{is_good, Quality, good, LiveReading, Decimal, Db}
use rvf_malinois.Store.Effects.{
  unexpected, unique_violation, attempt, throw, ◌>>◌, pure, M, Fault, query, command, next_id, Env,
  ◌>>=◌,
}
use rvf_malinois.Prelude.{
  none, some, suc, ℕ, ◌==◌, ltb, Uuid, Time, String, Bool, ◌&&◌, Option, List, [], ◌∷◌, find_by,
  any_by, if◌then◌else◌, Result, ok, err,
}

pub record AcceptedTelemetryProjectionInput : Type 0 where
  pub telemetry_reading_id : Uuid
  pub tenant_id : Uuid
  pub unit_id : Uuid
  pub sensor_id : Uuid
  pub canonical_tag_id : Uuid
  pub value : Decimal
  pub engineering_unit : String
  pub quality : Quality
  pub timestamp : Time
  pub source : String
  pub ingestion_timestamp : Time

pub data LiveReadingProjectionResult : Type 0 where
  created : Uuid → LiveReadingProjectionResult
  updated skipped_quality skipped_stale skipped_equal_timestamp : LiveReadingProjectionResult

-- The projection key of the input.
abbrev pub has_key : AcceptedTelemetryProjectionInput → LiveReading → Bool
has_key input r =
    r.unit_id == input.unit_id
    && r.sensor_id == input.sensor_id
    && r.canonical_tag_id == input.canonical_tag_id

-- The `where` of the watermark-gated update.
abbrev pub is_older : AcceptedTelemetryProjectionInput → LiveReading → Bool
is_older input r = has_key input r && ltb r.timestamp input.timestamp

-- `updateData`
unfoldable pub update_row : AcceptedTelemetryProjectionInput → LiveReading → LiveReading
update_row input r = record r {
  latest_telemetry_reading_id = input.telemetry_reading_id;
  value = input.value;
  engineering_unit = input.engineering_unit;
  quality = good;
  timestamp = input.timestamp;
  source = input.source;
  ingestion_timestamp = input.ingestion_timestamp;
}

unfoldable pub new_live_row : AcceptedTelemetryProjectionInput → Uuid → LiveReading
new_live_row input id = record {
  id = id;
  tenant_id = input.tenant_id;
  unit_id = input.unit_id;
  sensor_id = input.sensor_id;
  canonical_tag_id = input.canonical_tag_id;
  latest_telemetry_reading_id = input.telemetry_reading_id;
  value = input.value;
  engineering_unit = input.engineering_unit;
  quality = good;
  timestamp = input.timestamp;
  source = input.source;
  ingestion_timestamp = input.ingestion_timestamp;
}

-- `updateMany`: every matching row is rewritten, and the count of them is returned.
unfoldable pub update_live : AcceptedTelemetryProjectionInput → List LiveReading → List LiveReading
unfolding update_row
update_live input [] = []
update_live input (r ∷ rs) =
    (if is_older input r then update_row input r else r) ∷ update_live input rs

unfoldable pub count_older : AcceptedTelemetryProjectionInput → List LiveReading → ℕ
count_older input [] = 0
count_older input (r ∷ rs) =
    if is_older input r then suc (count_older input rs) else count_older input rs

abbrev pub update_many : AcceptedTelemetryProjectionInput → Db → Result Fault (ℕ × Db)
update_many input db =
    ok (count_older input db.live, record db { live = update_live input db.live })

-- `create`, with the constraint `live_readings_unit_sensor_tag_uk`
unfoldable pub create_live : AcceptedTelemetryProjectionInput → Uuid → Db → Result Fault (Uuid × Db)
unfolding new_live_row
create_live input id db =
    if any_by (has_key input) db.live
    then err unique_violation
    else ok (id, record db { live = new_live_row input id ∷ db.live })

-- What other transactions have done to the table in the meantime.
unfoldable pub others_commit : (List LiveReading → List LiveReading) → M (Unit {0})
others_commit race w = (ok tt, record w { db = record w.db { live = race w.db.live } })

-- What other transactions commit between two statements, by the number of the gap: a statement sees
-- what was committed before it, inside a transaction too (READ COMMITTED).
abbrev pub Race : Type 0
Race = ℕ → List LiveReading → List LiveReading

abbrev pub alone : Race
alone n rows = rows

abbrev pub skipped : AcceptedTelemetryProjectionInput → LiveReading → LiveReadingProjectionResult
skipped input row =
    if row.timestamp == input.timestamp then skipped_equal_timestamp else skipped_stale

-- `after?.timestamp` of a missing row equals no instant.
abbrev pub skipped_after :
    AcceptedTelemetryProjectionInput → Option LiveReading → LiveReadingProjectionResult
skipped_after input none = skipped_stale
skipped_after input (some row) = skipped input row

module _ (env : Env) where
  unfoldable pub update_step : AcceptedTelemetryProjectionInput → M ℕ
  unfolding command
  update_step input = command env (update_many input)

  unfoldable pub find_step : AcceptedTelemetryProjectionInput → M (Option LiveReading)
  unfolding query
  find_step input = query env (λ db. find_by (has_key input) db.live)

  unfoldable pub create_step : AcceptedTelemetryProjectionInput → M LiveReadingProjectionResult
  unfolding command next_id
  create_step input = do
    id ← next_id env
    made ← command env (create_live input id)
    pure (created made)

  -- The handler of the race that was lost.
  unfoldable pub retry :
      Race → AcceptedTelemetryProjectionInput → Fault → M LiveReadingProjectionResult
  unfolding others_commit update_step find_step
  retry race input unexpected = throw unexpected
  retry race input unique_violation = do
    others_commit (race 2)
    count ← update_step input
    if count == 1
        then pure updated
        else do others_commit (race 3); after ← find_step input; pure (skipped_after input after)

  -- The branches on `existing`.
  unfoldable pub on_existing :
      Race → AcceptedTelemetryProjectionInput → Option LiveReading → M LiveReadingProjectionResult
  unfolding others_commit create_step retry
  on_existing race input (some row) = pure (skipped input row)
  on_existing race input none = do
    others_commit (race 1)
    attempt (create_step input) (retry race input)

  -- The steps after the quality gate.
  unfoldable pub project : Race → AcceptedTelemetryProjectionInput → M LiveReadingProjectionResult
  unfolding update_step others_commit find_step on_existing
  project race input = do
    count ← update_step input
    if count == 1
        then pure updated
        else do others_commit (race 0); existing ← find_step input; on_existing race input existing

  unfoldable pub update_from_accepted_telemetry :
      Race → AcceptedTelemetryProjectionInput → M LiveReadingProjectionResult
  unfolding project
  update_from_accepted_telemetry race input =
      if is_good input.quality then project race input else pure skipped_quality
