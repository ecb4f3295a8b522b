-- ===== src/Web/TrendSeries/Accepted.antt =====
-- The query of the trend hook against the contract of the backend.
use rvf_malinois.Telemetry.Trends.{trends_query_schema}
use rvf_malinois.Web.TrendSeries.{
  TrendWindow, TrendWindowRange, window_ms, trend_query, minutes_15, hour_1, hours_6, hours_24,
  days_7,
}
use rvf_malinois.Web.WellTestWindow.{quantize}
use rvf_malinois.Prelude.{
  utf16_length_pos, utf16_length, ℕ, ◌+◌, ◌<◌, ◌≤◌, ◌≡◌, ◌↔◌, Uuid, Time, String, str_eq, false,
  true, none, some, arith,
}

-- The longest window of which the contract takes fifteen-minute buckets.
abbrev pub widest_ms : ℕ
widest_ms = 1350000000

-- For a tag name that is not empty, the query of the hook for a given `windowRange` is accepted by the
-- backend's contract exactly if the name has at most 64 UTF-16 units and the range is not empty and at
-- most 1,350,000,000 ms, that is 15 days and 15 hours, wide.
pub trend_query-range :
    (unit : Uuid) (tag : String) (window : TrendWindow) (range : TrendWindowRange) (now : Time)
    → str_eq tag "" ≡ false
    → (trends_query_schema (trend_query unit tag window (some range) now) ≡ true) ↔ (
        (utf16_length tag ≤ 64)
        × (range.from_ms < range.to_ms)
        × (range.to_ms ≤ range.from_ms + widest_ms))
unfolding trends_query_schema trend_query
trend_query-range unit tag window range now h =
    let named = utf16_length_pos tag h in (ground arith, ground arith)

-- For a tag name of 1 to 64 UTF-16 units, the query for each of the fixed windows is accepted, once the
-- clock has passed a window's length.
trend_query-window :
    (unit : Uuid) (tag : String) (window : TrendWindow) (now : Time)
    → str_eq tag "" ≡ false
    → utf16_length tag ≤ 64
    → window_ms window ≤ quantize now
    → trends_query_schema (trend_query unit tag window none now) ≡ true
unfolding trends_query_schema trend_query
trend_query-window unit tag minutes_15 now h l k = ground (arith, utf16_length_pos tag h)
trend_query-window unit tag hour_1 now h l k = ground (arith, utf16_length_pos tag h)
trend_query-window unit tag hours_6 now h l k = ground (arith, utf16_length_pos tag h)
trend_query-window unit tag hours_24 now h l k = ground (arith, utf16_length_pos tag h)
trend_query-window unit tag days_7 now h l k = ground (arith, utf16_length_pos tag h)
