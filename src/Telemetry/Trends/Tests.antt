-- ===== src/Telemetry/Trends/Tests.antt =====
-- Trend queries on a small table.
use rvf_malinois.Telemetry.Trends.Grid.{bucket_grid-enough}
use rvf_malinois.Store.Rows.{Quality, good, bad}
use rvf_malinois.WellTests.Service.{CallerContext}
use rvf_malinois.Telemetry.Resolver.{CanonicalTagRow}
use rvf_malinois.Telemetry.Trends.{
  generate_series, date_bin, TrendsQuery, ReadingRow, TrendPoint, TrendBucket, Bucketed, Sql,
  one_minute, avg, good_only, query, trends_query_schema, bucket_grid, trends_buckets_max, selected,
  bucket_count_fits, response,
}
use rvf_malinois.Telemetry.Trends.Partition.{Divides, query-Divides, query-length_le}
use rvf_malinois.Telemetry.Trends.Scope.{AreOldest, query-AreOldest, query-own, is_own}
use rvf_malinois.Prelude.{
  ◌==◌, any_by, arith, ◌+◌, ◌≡◌, ◌≤◌, refl, Uuid, Time, true, none, some, List, [], ◌∷◌, length, ok,
  filter_by,
}

abbrev sql : Sql
sql = record {
  avg_of = λ vs. "0";
  min_of = λ vs. "0";
  max_of = λ vs. "0";
  numeric_of = λ n. "1";
  number_of = λ d. 7;
}

abbrev tag : CanonicalTagRow
tag = record {
  id = 4;
  name = "p_inlet";
  display_name = "Inlet pressure";
  canonical_unit = "psi";
  category = "pressure";
  precision = 2;
}

-- A reading of tenant `tenant` at `at`.
abbrev row_at : Uuid → Time → Quality → ReadingRow
row_at tenant at q = record {
  reading = record {
    id = at;
    tenant_id = tenant;
    unit_id = 2;
    sensor_id = 3;
    canonical_tag_id = 4;
    integration_source_id = none;
    timestamp = at;
    value = "1";
    engineering_unit = "psi";
    quality = q;
    source = "mqtt";
    ingestion_id = "i";
    sequence = none;
  };
  job_id = none;
}

abbrev start : Time
start = 8640946684830000

abbrev rows : List ReadingRow
rows =
    row_at 1 (start + 40000) good
    ∷ row_at 9 (start + 5000) good
    ∷ row_at 1 (start + 1000) good
    ∷ row_at 1 (start + 50000) bad
    ∷ []

abbrev caller : CallerContext
caller = record { tenant_id = some 1 }

-- A window of a minute and a half from the middle of a minute.
abbrev bucketed_query : TrendsQuery
bucketed_query = record {
  unit_id = 2;
  from = start;
  to = start + 90000;
  canonical_tag_id = some 4;
  canonical_tag_name = none;
  job_id = none;
  quality = none;
  source = none;
  limit = 1000;
  bucket = some one_minute;
  aggregate = some avg;
  quality_policy = none;
}

abbrev raw_query : TrendsQuery
raw_query = record bucketed_query { limit = 2; bucket = none; aggregate = none }

abbrev two_buckets : List TrendBucket
two_buckets =
    record {
      bucket_start = 8640946684800000;
      bucket_end = 8640946684860000;
      value = some 7;
      sample_count = 1;
    }
    ∷ record {
      bucket_start = 8640946684860000;
      bucket_end = 8640946684920000;
      value = some 7;
      sample_count = 1;
    }
    ∷ []

abbrev details : Bucketed
details = record {
  bucket = one_minute;
  aggregate = avg;
  quality_policy = good_only;
  buckets = two_buckets;
}

bucketed_runs :
    query sql caller bucketed_query (tag ∷ []) rows
    ≡ ok (response bucketed_query tag [] (some details))
unfolding query
bucketed_runs = refl

query-Divides_example :
    Divides one_minute start (selected caller bucketed_query 4 good_only rows) two_buckets
query-Divides_example = query-Divides sql caller bucketed_query (tag ∷ []) rows bucketed_runs refl

bucketed_accepted : trends_query_schema bucketed_query ≡ true
unfolding trends_query_schema
bucketed_accepted = refl

query-length_le_example : length two_buckets ≤ trends_buckets_max + 1
query-length_le_example =
    query-length_le sql caller bucketed_query (tag ∷ []) rows bucketed_accepted bucketed_runs refl

-- The bound is reached: of a window of 1500 minutes that starts within a minute.
grid_above_max : length (bucket_grid one_minute start (start + 90000000)) ≡ trends_buckets_max + 1
unfolding bucket_grid
grid_above_max = refl

grid_above_max_fits : bucket_count_fits (some one_minute) start (start + 90000000) ≡ true
unfolding bucket_count_fits
grid_above_max_fits = refl

abbrev point : Time → TrendPoint
point at = record {
  timestamp = at;
  value = "1";
  engineering_unit = "psi";
  quality = good;
  source = "mqtt";
}

raw_runs :
    query sql caller raw_query (tag ∷ []) rows
    ≡ ok (response raw_query tag (point (start + 1000) ∷ point (start + 40000) ∷ []) none)
unfolding query
raw_runs = refl

query-AreOldest_example :
    AreOldest caller raw_query 4 rows (point (start + 1000) ∷ point (start + 40000) ∷ [])
query-AreOldest_example = query-AreOldest sql caller raw_query (tag ∷ []) rows raw_runs refl

query-own_example :
    query sql caller raw_query (tag ∷ []) (filter_by (is_own 1) rows)
    ≡ query sql caller raw_query (tag ∷ []) rows
query-own_example = query-own sql caller raw_query (tag ∷ []) rows 1 refl

bucket_grid-enough_example :
    (generate_series 500000 (date_bin 60000 (start + 1000)) (start + 90000) 60000
      ≡ bucket_grid one_minute (start + 1000) (start + 90000))
    × (any_by (λ x. x == start + 30000) (bucket_grid one_minute (start + 1000) (start + 90000))
        ≡ true)
unfolding date_bin
bucket_grid-enough_example =
    bucket_grid-enough one_minute (start + 1000) (start + 90000) (start + 30000) 500000
      (omega arith)
