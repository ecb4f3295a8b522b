-- ===== src/Telemetry/Trends.antt =====
-- apps/backend/src/telemetry/contracts/trends.ts and apps/backend/src/telemetry/trends.service.ts.
-- The SQL of the bucketed mode is translated clause by clause. `Sql` has what PostgreSQL computes on
-- decimals; the order that it gives to rows of one instant is that of the table.
mod Tests
pub mod Grid
pub mod Scope
pub mod Partition
use rvf_malinois.Store.Rows.{TelemetryReading, Quality, uncertain, same_quality, is_good, Decimal}
use rvf_malinois.WellTests.Service.{CallerContext}
use rvf_malinois.WellTests.Reads.{matches_if_given}
use rvf_malinois.Telemetry.Resolver.{HttpError, internal, CanonicalTagRow, is_given, resolve}
use rvf_malinois.Prelude.{
  text_schema, ℕ, zero, suc, ◌+◌, ◌-◌, ◌*◌, ◌/◌, ◌==◌, ltb, leb, Uuid, Time, String, str_eq, Bool,
  true, false, not, ◌&&◌, ◌||◌, if◌then◌else◌, is_some, Option, none, some, List, [], ◌∷◌, map,
  take, length, filter_by, sort_by, Result, ok, err, ◌>>=◌,
}

abbrev pub trends_limit_max : ℕ
trends_limit_max = 5000

abbrev pub trends_limit_default : ℕ
trends_limit_default = 1000

pub data TrendsBucket : Type 0 where
  one_minute five_minutes fifteen_minutes one_hour one_day : TrendsBucket

-- `TRENDS_BUCKET_MS`; `BUCKET_INTERVAL_LITERAL` names the same widths.
abbrev pub bucket_ms : TrendsBucket → ℕ
bucket_ms one_minute = 60000
bucket_ms five_minutes = 300000
bucket_ms fifteen_minutes = 900000
bucket_ms one_hour = 3600000
bucket_ms one_day = 86400000

pub data TrendsAggregate : Type 0 where
  avg min_value max_value count first last : TrendsAggregate

pub data TrendsQualityPolicy : Type 0 where
  good_only include_uncertain include_all : TrendsQualityPolicy

abbrev pub trends_buckets_max : ℕ
trends_buckets_max = 1500

pub record TrendsQuery : Type 0 where
  pub unit_id : Uuid
  pub from : Time
  pub to : Time
  pub canonical_tag_id : Option Uuid
  pub canonical_tag_name : Option String
  pub job_id : Option Uuid
  pub quality : Option Quality
  pub source : Option String
  pub limit : ℕ
  pub bucket : Option TrendsBucket
  pub aggregate : Option TrendsAggregate
  pub quality_policy : Option TrendsQualityPolicy

abbrev pub same_bool : Bool → Bool → Bool
same_bool true b = b
same_bool false b = not b

-- `Math.ceil(span / width)`
unfoldable pub ceil_div : ℕ → ℕ → ℕ
ceil_div span width = (span + (width - 1)) / width

unfoldable pub bucket_count_fits : Option TrendsBucket → Time → Time → Bool
unfolding ceil_div
bucket_count_fits none from to = true
bucket_count_fits (some b) from to = leb (ceil_div (to - from) (bucket_ms b)) trends_buckets_max

-- The bounds of the tag's name and of `limit`, and the refinements in their order.
unfoldable pub trends_query_schema : TrendsQuery → Bool
unfolding bucket_count_fits
trends_query_schema q =
    text_schema 64 q.canonical_tag_name
    && leb 1 q.limit
    && leb q.limit trends_limit_max
    && ltb q.from q.to
    && not (same_bool (is_some q.canonical_tag_id) (is_given q.canonical_tag_name))
    && same_bool (is_some q.bucket) (is_some q.aggregate)
    && not (is_some q.quality_policy && not (is_some q.bucket))
    && bucket_count_fits q.bucket q.from q.to

-- A row of `telemetry_readings`, with the column that ingestion leaves NULL.
pub record ReadingRow : Type 0 where
  pub reading : TelemetryReading
  pub job_id : Option Uuid

pub record TrendPoint : Type 0 where
  pub timestamp : Time
  pub value : Decimal
  pub engineering_unit : String
  pub quality : Quality
  pub source : String

abbrev pub Number : Type 0
Number = ℕ

pub record TrendBucket : Type 0 where
  pub bucket_start : Time
  pub bucket_end : Time
  pub value : Option Number
  pub sample_count : ℕ

-- What only the bucketed mode answers.
pub record Bucketed : Type 0 where
  pub bucket : TrendsBucket
  pub aggregate : TrendsAggregate
  pub quality_policy : TrendsQualityPolicy
  pub buckets : List TrendBucket

pub record TrendsResponse : Type 0 where
  pub unit_id : Uuid
  pub canonical_tag : CanonicalTagRow
  pub from : Time
  pub to : Time
  pub points : List TrendPoint
  pub bucketed : Option Bucketed

-- `AVG`, `MIN` and `MAX` of the values of a group, a count as a `numeric`, and `Number(decimal)`.
pub record Sql : Type 0 where
  pub avg_of : List Decimal → Decimal
  pub min_of : List Decimal → Decimal
  pub max_of : List Decimal → Decimal
  pub numeric_of : ℕ → Decimal
  pub number_of : Decimal → Number

-- `...(value ? { column: value } : {})`, and `AND column = value` if a value is given; NULL fits none.
abbrev pub job_matches : Option Uuid → Option Uuid → Bool
job_matches none column = true
job_matches (some v) none = false
job_matches (some v) (some c) = c == v

abbrev pub quality_matches : Option Quality → Quality → Bool
quality_matches none column = true
quality_matches (some v) column = same_quality column v

abbrev pub source_matches : Option String → String → Bool
source_matches none column = true
source_matches (some v) column = if str_eq v "" then true else str_eq column v

-- The conditions that both modes put on a row, the tenant's first.
unfoldable pub in_scope : CallerContext → TrendsQuery → Uuid → ReadingRow → Bool
in_scope ctx q tag row =
    matches_if_given ctx.tenant_id row.reading.tenant_id
    && row.reading.unit_id == q.unit_id
    && row.reading.canonical_tag_id == tag
    && leb q.from row.reading.timestamp
    && ltb row.reading.timestamp q.to
    && job_matches q.job_id row.job_id
    && quality_matches q.quality row.reading.quality
    && source_matches q.source row.reading.source

abbrev pub point_of : ReadingRow → TrendPoint
point_of row = record {
  timestamp = row.reading.timestamp;
  value = row.reading.value;
  engineering_unit = row.reading.engineering_unit;
  quality = row.reading.quality;
  source = row.reading.source;
}

-- `ORDER BY timestamp ASC` and `DESC`
abbrev pub not_later : ReadingRow → ReadingRow → Bool
not_later a b = leb a.reading.timestamp b.reading.timestamp

abbrev pub not_earlier : ReadingRow → ReadingRow → Bool
not_earlier a b = leb b.reading.timestamp a.reading.timestamp

unfoldable pub raw_points : CallerContext → TrendsQuery → Uuid → List ReadingRow → List TrendPoint
unfolding in_scope
raw_points ctx q tag rows =
    map point_of (take q.limit (sort_by not_later (filter_by (in_scope ctx q tag) rows)))

unfoldable pub quality_policy_filter : TrendsQualityPolicy → Quality → Bool
quality_policy_filter good_only column = is_good column
quality_policy_filter include_uncertain column = is_good column || same_quality column uncertain
quality_policy_filter include_all column = true

-- `'2000-01-01'` in UTC, counted like every instant from the first one that a `Date` can hold
abbrev pub bin_origin : Time
bin_origin = 8640946684800000

-- `date_bin(stride, at, '2000-01-01')`: the last instant, not after `at`, that lies a whole number of
-- strides from the origin.
unfoldable pub date_bin : ℕ → Time → Time
date_bin stride at =
    if leb bin_origin at
    then bin_origin + (at - bin_origin) / stride * stride
    else bin_origin - (bin_origin - at + (stride - 1)) / stride * stride

-- `generate_series(start, end - '1 microsecond', step)`, of at most as many terms as the fuel.
unfoldable pub generate_series : ℕ → Time → Time → ℕ → List Time
generate_series zero start end step = []
generate_series (suc fuel) start end step =
    let rest = start ∷ generate_series fuel (start + step) end step in
    if ltb start end then rest else []

-- A series has at most as many terms as there are instants before its end.
unfoldable pub bucket_grid : TrendsBucket → Time → Time → List Time
unfolding date_bin generate_series
bucket_grid b from to =
    let start = date_bin (bucket_ms b) from in generate_series (to - start) start to (bucket_ms b)

abbrev pub value_of : ReadingRow → Decimal
value_of row = row.reading.value

abbrev pub head_or : Decimal → List ReadingRow → Decimal
head_or other [] = other
head_or other (row ∷ rows) = value_of row

-- The rows of the `WHERE`, which `GROUP BY` then splits.
unfoldable pub selected :
    CallerContext → TrendsQuery → Uuid → TrendsQualityPolicy → List ReadingRow → List ReadingRow
unfolding in_scope quality_policy_filter
selected ctx q tag policy rows =
    filter_by (λ row. in_scope ctx q tag row && quality_policy_filter policy row.reading.quality)
      rows

unfoldable pub group_at : TrendsBucket → List ReadingRow → Time → List ReadingRow
unfolding date_bin
group_at b rows start =
    filter_by (λ row. date_bin (bucket_ms b) row.reading.timestamp == start) rows

abbrev pub policy_or_default : Option TrendsQualityPolicy → TrendsQualityPolicy
policy_or_default none = good_only
policy_or_default (some policy) = policy

abbrev pub response :
    TrendsQuery → CanonicalTagRow → List TrendPoint → Option Bucketed → TrendsResponse
response q tag points bucketed = record {
  unit_id = q.unit_id;
  canonical_tag = tag;
  from = q.from;
  to = q.to;
  points = points;
  bucketed = bucketed;
}

module _ (sql : Sql) where
  -- The aggregate of the group `row ∷ rows`.
  unfoldable pub aggregate_expression : TrendsAggregate → ReadingRow → List ReadingRow → Decimal
  aggregate_expression avg row rows = sql.avg_of (map value_of (row ∷ rows))
  aggregate_expression min_value row rows = sql.min_of (map value_of (row ∷ rows))
  aggregate_expression max_value row rows = sql.max_of (map value_of (row ∷ rows))
  aggregate_expression count row rows = sql.numeric_of (length (row ∷ rows))
  aggregate_expression first row rows = head_or (value_of row) (sort_by not_later (row ∷ rows))
  aggregate_expression last row rows = head_or (value_of row) (sort_by not_earlier (row ∷ rows))

  -- A row of the grid joined with its group; a group that is not there gives NULL, and a count of 0.
  unfoldable pub joined : TrendsBucket → TrendsAggregate → Time → List ReadingRow → TrendBucket
  unfolding aggregate_expression
  joined b a start [] = record {
    bucket_start = start;
    bucket_end = start + bucket_ms b;
    value = none;
    sample_count = 0;
  }
  joined b a start (row ∷ rows) = record {
    bucket_start = start;
    bucket_end = start + bucket_ms b;
    value = some (sql.number_of (aggregate_expression a row rows));
    sample_count = length (row ∷ rows);
  }

  unfoldable pub run_bucketed_query :
      TrendsBucket → TrendsAggregate → Time → Time → List ReadingRow → List TrendBucket
  unfolding bucket_grid group_at joined
  run_bucketed_query b a from to rows =
      map (λ start. joined b a start (group_at b rows start)) (bucket_grid b from to)

  -- The two modes, by `input.bucket` and `input.aggregate`.
  unfoldable pub answer :
      CallerContext
      → TrendsQuery
      → CanonicalTagRow
      → Option TrendsBucket
      → Option TrendsAggregate
      → List ReadingRow
      → Result HttpError TrendsResponse
  unfolding raw_points run_bucketed_query selected
  answer ctx q tag none a rows = ok (response q tag (raw_points ctx q tag.id rows) none)
  answer ctx q tag (some b) none rows = err internal
  answer ctx q tag (some b) (some a) rows =
      let policy = policy_or_default q.quality_policy in
      ok (
        response q tag [] (
          some (record {
            bucket = b;
            aggregate = a;
            quality_policy = policy;
            buckets = run_bucketed_query b a q.from q.to (selected ctx q tag.id policy rows);
          })))

  unfoldable pub query :
      CallerContext
      → TrendsQuery
      → List CanonicalTagRow
      → List ReadingRow
      → Result HttpError TrendsResponse
  unfolding answer resolve
  query ctx q tags rows = resolve tags q.canonical_tag_id q.canonical_tag_name >>= λ tag.
      answer ctx q tag q.bucket q.aggregate rows
