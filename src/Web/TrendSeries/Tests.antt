-- ===== src/Web/TrendSeries/Tests.antt =====
-- The queries of the trend hook, and the series of a response.
use rvf_malinois.Telemetry.Trends.{trends_query_schema, TrendsResponse, one_minute, avg, good_only}
use rvf_malinois.Web.TrendSeries.{
  TrendWindowRange, trend_query, hour_1, hours_6, window_ms, trends_latest_point,
  trends_to_chart_series, is_chart_series_empty,
}
use rvf_malinois.Web.TrendSeries.Accepted.{trend_query-range, widest_ms}
use rvf_malinois.Web.TrendSeries.Series.{trends_latest_point-last, value_of, last_of, is_nil}
use rvf_malinois.Web.WellTestWindow.{quantize}
use rvf_malinois.Prelude.{
  utf16_length, ltb, ◌+◌, ◌≡◌, ◌↔◌, ◌<◌, ◌≤◌, true, none, some, [], ◌∷◌, refl, arith,
}

abbrev range : TrendWindowRange
range = record { from_ms = 1000; to_ms = 4000000; pill_id = "full_test" }

trend_query-range_example :
    (trends_query_schema (trend_query 2 "p_inlet" hour_1 (some range) 0) ≡ true) ↔ (
      (utf16_length "p_inlet" ≤ 64)
      × (range.from_ms < range.to_ms)
      × (range.to_ms ≤ range.from_ms + widest_ms))
trend_query-range_example = trend_query-range 2 "p_inlet" hour_1 range 0 refl

six_hours_passed : window_ms hours_6 ≤ quantize 50000000
unfolding window_ms quantize
six_hours_passed = omega arith

abbrev response : TrendsResponse
response = record {
  unit_id = 2;
  canonical_tag = record {
    id = 4;
    name = "p_inlet";
    display_name = "Inlet pressure";
    canonical_unit = "psi";
    category = "pressure";
    precision = 2;
  };
  from = 0;
  to = 180000;
  points = [];
  bucketed = some (record {
    bucket = one_minute;
    aggregate = avg;
    quality_policy = good_only;
    buckets =
        record { bucket_start = 0; bucket_end = 60000; value = some 5; sample_count = 2 }
        ∷ record { bucket_start = 60000; bucket_end = 120000; value = some 8; sample_count = 1 }
        ∷ record { bucket_start = 120000; bucket_end = 180000; value = none; sample_count = 0 }
        ∷ [];
  });
}

trends_latest_point-last_example :
    (value_of (trends_latest_point (λ d. 0) (λ v. ltb v 100) response)
      ≡ last_of (trends_to_chart_series (λ d. 0) (λ v. ltb v 100) response "P" "red").data_points)
    × (is_chart_series_empty (λ d. 0) (λ v. ltb v 100) response
        ≡ is_nil (trends_to_chart_series (λ d. 0) (λ v. ltb v 100) response "P" "red").data_points)
trends_latest_point-last_example =
    trends_latest_point-last (λ d. 0) (λ v. ltb v 100) response "P" "red"
