-- ===== src/Web/TrendSeries.antt =====
-- apps/web/lib/hooks/useOperationsTrendSeries.ts, the query that the hook sends, and
-- apps/web/lib/api-data/f4/trendsToChartSeries.ts, the series that it draws. The query runs against
-- the contract of apps/backend/src/telemetry/contracts/trends.ts; a response is read as its JSON.
mod Tests
pub mod Accepted
pub mod Series
use rvf_malinois.Telemetry.Trends.{
  TrendsBucket, one_minute, five_minutes, fifteen_minutes, TrendsAggregate, avg,
  TrendsQualityPolicy, good_only, TrendsQuery, trends_limit_default, TrendBucket, TrendPoint,
  Bucketed, TrendsResponse, Number,
}
use rvf_malinois.Store.Rows.{Decimal}
use rvf_malinois.Web.WellTestWindow.{cache_bucket_ms, quantize}
use rvf_malinois.Prelude.{
  ℕ, Uuid, Time, String, Bool, true, false, Option, none, some, List, [], ◌∷◌, ◌-◌, leb,
  if◌then◌else◌, is_some, ◌&&◌, not,
}

pub data TrendWindow : Type 0 where
  minutes_15 hour_1 hours_6 hours_24 days_7 : TrendWindow

unfoldable pub window_ms : TrendWindow → ℕ
window_ms minutes_15 = 900000
window_ms hour_1 = 3600000
window_ms hours_6 = 21600000
window_ms hours_24 = 86400000
window_ms days_7 = 604800000

pub record TrendQueryPolicy : Type 0 where
  pub bucket : Option TrendsBucket
  pub aggregate : Option TrendsAggregate
  pub quality_policy : Option TrendsQualityPolicy

abbrev pub raw : TrendQueryPolicy
raw = record { bucket = none; aggregate = none; quality_policy = none }

abbrev pub averaged : TrendsBucket → TrendQueryPolicy
averaged b = record { bucket = some b; aggregate = some avg; quality_policy = some good_only }

unfoldable pub policy_for_window : TrendWindow → TrendQueryPolicy
policy_for_window minutes_15 = raw
policy_for_window hour_1 = raw
policy_for_window hours_6 = averaged one_minute
policy_for_window hours_24 = averaged five_minutes
policy_for_window days_7 = averaged fifteen_minutes

unfoldable pub policy_for_width : ℕ → TrendQueryPolicy
unfolding window_ms
policy_for_width width =
    if leb width (window_ms hour_1)
    then raw
    else if leb width (window_ms hours_6)
    then averaged one_minute
    else if leb width (window_ms hours_24)
    then averaged five_minutes
    else averaged fifteen_minutes

pub record TrendWindowRange : Type 0 where
  pub from_ms : Time
  pub to_ms : Time
  pub pill_id : String

-- The query that the adapter is given, as the backend reads it: the limit is its default.
abbrev pub query_of : Uuid → String → Time → Time → TrendQueryPolicy → TrendsQuery
query_of unit tag from to policy = record {
  unit_id = unit;
  from = from;
  to = to;
  canonical_tag_id = none;
  canonical_tag_name = some tag;
  job_id = none;
  quality = none;
  source = none;
  limit = trends_limit_default;
  bucket = policy.bucket;
  aggregate = policy.aggregate;
  quality_policy = policy.quality_policy;
}

-- The window of the hook: `windowRange` if there is one, else the last `window` of the clock.
unfoldable pub trend_query :
    Uuid → String → TrendWindow → Option TrendWindowRange → Time → TrendsQuery
unfolding policy_for_window policy_for_width window_ms quantize
trend_query unit tag window (some range) now =
    query_of unit tag range.from_ms range.to_ms (policy_for_width (range.to_ms - range.from_ms))
trend_query unit tag window none now =
    let to = quantize now in query_of unit tag (to - window_ms window) to (policy_for_window window)

pub record ChartSeries : Type 0 where
  pub name : String
  pub color : String
  pub data_points : List Number

pub record LatestPoint : Type 0 where
  pub value : Number
  pub timestamp : Time

-- `Number(text)` of a decimal and `Number.isFinite`
module _ (number_of : Decimal → Number) (is_finite : Number → Bool) where
  -- `isFiniteNumber` on a number or null
  abbrev pub finite_or_none : Option Number → Option Number
  finite_or_none none = none
  finite_or_none (some v) = if is_finite v then some v else none

  abbrev pub kept : Option Number → List Number → List Number
  kept none vs = vs
  kept (some v) vs = v ∷ vs

  unfoldable pub bucket_values : List TrendBucket → List Number
  bucket_values [] = []
  bucket_values (b ∷ bs) = kept (finite_or_none b.value) (bucket_values bs)

  unfoldable pub point_values : List TrendPoint → List Number
  point_values [] = []
  point_values (p ∷ ps) = kept (finite_or_none (some (number_of p.value))) (point_values ps)

  unfoldable pub data_of : Option Bucketed → List TrendPoint → List Number
  unfolding bucket_values point_values
  data_of (some d) points = bucket_values d.buckets
  data_of none points = point_values points

  unfoldable pub trends_to_chart_series : TrendsResponse → String → String → ChartSeries
  unfolding data_of
  trends_to_chart_series response name color = record {
    name = name;
    color = color;
    data_points = data_of response.bucketed response.points;
  }

  abbrev pub point_at : Option Number → Time → Option LatestPoint
  point_at none at = none
  point_at (some v) at = some (record { value = v; timestamp = at })

  -- The loops run from the end: an element counts only if none after it does.
  abbrev pub later_or : Option LatestPoint → Option LatestPoint → Option LatestPoint
  later_or (some later) own = some later
  later_or none own = own

  unfoldable pub latest_bucket : List TrendBucket → Option LatestPoint
  latest_bucket [] = none
  latest_bucket (b ∷ bs) =
      later_or (latest_bucket bs) (point_at (finite_or_none b.value) b.bucket_end)

  unfoldable pub latest_of_points : List TrendPoint → Option LatestPoint
  latest_of_points [] = none
  latest_of_points (p ∷ ps) =
      later_or (latest_of_points ps)
        (point_at (finite_or_none (some (number_of p.value))) p.timestamp)

  unfoldable pub latest_of : Option Bucketed → List TrendPoint → Option LatestPoint
  unfolding latest_bucket latest_of_points
  latest_of (some d) points = latest_bucket d.buckets
  latest_of none points = latest_of_points points

  unfoldable pub trends_latest_point : TrendsResponse → Option LatestPoint
  unfolding latest_of
  trends_latest_point response = latest_of response.bucketed response.points

  unfoldable pub no_buckets : List TrendBucket → Bool
  no_buckets [] = true
  no_buckets (b ∷ bs) = not (is_some (finite_or_none b.value)) && no_buckets bs

  unfoldable pub no_points : List TrendPoint → Bool
  no_points [] = true
  no_points (p ∷ ps) = not (is_finite (number_of p.value)) && no_points ps

  unfoldable pub is_empty_of : Option Bucketed → List TrendPoint → Bool
  unfolding no_buckets no_points
  is_empty_of (some d) points = no_buckets d.buckets
  is_empty_of none points = no_points points

  unfoldable pub is_chart_series_empty : TrendsResponse → Bool
  unfolding is_empty_of
  is_chart_series_empty response = is_empty_of response.bucketed response.points
