-- ===== src/Telemetry/Ingestion/Readings.antt =====
-- The insert into `telemetry_readings` under the two partial unique indexes of
-- apps/backend/prisma/migrations/20260526000000_f4_6a_telemetry_hardening/migration.sql, and the
-- look-up by the same keys in telemetry-ingestion.service.ts.
use rvf_malinois.Store.Effects.{unique_violation, Fault}
use rvf_malinois.Store.Rows.{Db, TelemetryReading}
use rvf_malinois.Prelude.{
  ℕ, ◌==◌, Uuid, Time, Bool, true, false, ◌&&◌, Option, none, some, ◌∷◌, any_by, if◌then◌else◌,
  Result, ok, err,
}

abbrev pub same_source : Option Uuid → Option Uuid → Bool
same_source (some a) (some b) = a == b
same_source _ _ = false

-- `telemetry_readings_dedup_seq_uk` where both rows have a sequence, `telemetry_readings_dedup_ts_uk`
-- where neither has.
abbrev pub same_dedup_key : Option ℕ → Option ℕ → TelemetryReading → TelemetryReading → Bool
same_dedup_key (some m) (some n) new r =
    same_source r.integration_source_id new.integration_source_id
    && r.sensor_id == new.sensor_id
    && r.canonical_tag_id == new.canonical_tag_id
    && n == m
same_dedup_key none none new r =
    r.sensor_id == new.sensor_id
    && r.canonical_tag_id == new.canonical_tag_id
    && r.timestamp == new.timestamp
same_dedup_key _ _ new r = false

abbrev pub clashes : TelemetryReading → TelemetryReading → Bool
clashes new r = same_dedup_key new.sequence r.sequence new r

unfoldable pub insert_reading : TelemetryReading → Db → Result Fault (Uuid × Db)
insert_reading new db =
    if any_by (clashes new) db.readings
    then err unique_violation
    else ok (new.id, record db { readings = new ∷ db.readings })

abbrev pub sequence_is : Option ℕ → ℕ → Bool
sequence_is none n = false
sequence_is (some m) n = m == n

abbrev pub sequence_is_null : Option ℕ → Bool
sequence_is_null none = true
sequence_is_null (some m) = false

-- The `where` of the two look-ups in `classifyDedup`.
abbrev pub is_existing : Uuid → Uuid → Uuid → Time → Option ℕ → TelemetryReading → Bool
is_existing source sensor tag at (some n) r =
    same_source r.integration_source_id (some source)
    && r.sensor_id == sensor
    && r.canonical_tag_id == tag
    && sequence_is r.sequence n
is_existing source sensor tag at none r =
    r.sensor_id == sensor
    && r.canonical_tag_id == tag
    && r.timestamp == at
    && sequence_is_null r.sequence
