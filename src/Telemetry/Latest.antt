-- ===== src/Telemetry/Latest.antt =====
-- apps/backend/src/telemetry/contracts/latest.ts and apps/backend/src/telemetry/latest.service.ts. The
-- foreign key gives every tag id of `live_readings` its row, which is the parameter `tag_of`.
pub mod Fresh
mod Tests
use rvf_malinois.Store.Rows.{Decimal, Quality, good, uncertain, bad, LiveReading}
use rvf_malinois.WellTests.Service.{CallerContext}
use rvf_malinois.WellTests.Reads.{matches_if_given}
use rvf_malinois.Telemetry.Resolver.{HttpError, CanonicalTagRow, resolve_tag}
use rvf_malinois.Prelude.{
  text_schema, ◌==◌, leb, Uuid, Time, String, str_eq, Bool, not, ◌&&◌, ◌||◌, if◌then◌else◌, is_some,
  Option, none, some, List, map, filter_by, sort_by, Result, ok, ◌>>=◌,
}

pub record LatestQuery : Type 0 where
  pub unit_id : Uuid
  pub canonical_tag_id : Option Uuid
  pub canonical_tag_name : Option String

-- The bounds of the tag's name and the refinement.
unfoldable pub latest_query_schema : LatestQuery → Bool
latest_query_schema q =
    text_schema 64 q.canonical_tag_name
    && not (is_some q.canonical_tag_id && is_some q.canonical_tag_name)

pub record LatestValueRow : Type 0 where
  pub sensor_id : Uuid
  pub canonical_tag : CanonicalTagRow
  pub value : Decimal
  pub engineering_unit : String
  pub quality : Quality
  pub timestamp : Time
  pub ingestion_timestamp : Time
  pub source : String
  pub latest_telemetry_reading_id : Uuid

-- `generatedAt` and `source` of the envelope are left out.
pub record LatestResponse : Type 0 where
  pub unit_id : Uuid
  pub values : List LatestValueRow

-- The text of a stored quality.
abbrev pub quality_text : Quality → String
quality_text good = "good"
quality_text uncertain = "uncertain"
quality_text bad = "bad"

unfoldable pub narrow_quality : String → Quality
narrow_quality raw =
    if str_eq raw "good"
    then good
    else if str_eq raw "uncertain"
    then uncertain
    else if str_eq raw "bad"
    then bad
    else good

-- `ORDER BY timestamp DESC`
abbrev pub latest_first : LiveReading → LiveReading → Bool
latest_first a b = leb b.timestamp a.timestamp

unfoldable pub live_where : CallerContext → LatestQuery → Option Uuid → LiveReading → Bool
live_where ctx q tag row =
    matches_if_given ctx.tenant_id row.tenant_id
    && row.unit_id == q.unit_id
    && matches_if_given tag row.canonical_tag_id

module _ (tag_of : Uuid → CanonicalTagRow) where
  unfoldable pub value_row : LiveReading → LatestValueRow
  unfolding narrow_quality
  value_row row = record {
    sensor_id = row.sensor_id;
    canonical_tag = tag_of row.canonical_tag_id;
    value = row.value;
    engineering_unit = row.engineering_unit;
    quality = narrow_quality (quality_text row.quality);
    timestamp = row.timestamp;
    ingestion_timestamp = row.ingestion_timestamp;
    source = row.source;
    latest_telemetry_reading_id = row.latest_telemetry_reading_id;
  }

  unfoldable pub list_values :
      CallerContext → LatestQuery → Option Uuid → List LiveReading → LatestResponse
  unfolding live_where value_row
  list_values ctx q tag rows = record {
    unit_id = q.unit_id;
    values = map value_row (sort_by latest_first (filter_by (live_where ctx q tag) rows));
  }

  unfoldable pub query_latest :
      CallerContext
      → LatestQuery
      → List CanonicalTagRow
      → List LiveReading
      → Result HttpError LatestResponse
  unfolding resolve_tag list_values
  query_latest ctx q tags rows = resolve_tag tags q.canonical_tag_id q.canonical_tag_name >>= λ tag.
      ok (list_values ctx q tag rows)
