-- ===== src/Web/TrendSeries/Series.antt =====
-- The series that a chart draws, its latest point and its emptiness agree.
use rvf_malinois.Store.Rows.{Decimal}
use rvf_malinois.Telemetry.Trends.{Number, TrendsResponse, TrendBucket, TrendPoint, Bucketed}
use rvf_malinois.Web.TrendSeries.{
  LatestPoint, bucket_values, point_values, data_of, trends_to_chart_series, latest_bucket,
  latest_of_points, latest_of, trends_latest_point, no_buckets, no_points, is_empty_of,
  is_chart_series_empty, later_or, point_at, kept, finite_or_none,
}
use rvf_malinois.Prelude.{
  ◌≡◌, ◌≢◌, sym, Time, not, ◌&&◌, is_some, String, Bool, true, false, Option, none, some, List, [],
  ◌∷◌, arith, refl,
}

abbrev pub last_of : List Number → Option Number
last_of [] = none
last_of (v ∷ []) = some v
last_of (v ∷ (w ∷ vs)) = last_of (w ∷ vs)

abbrev pub is_nil : List Number → Bool
is_nil [] = true
is_nil (v ∷ vs) = false

abbrev pub value_of : Option LatestPoint → Option Number
value_of none = none
value_of (some p) = some p.value

-- A list that has members has a last one.
last_of-some : (v : Number) (vs : List Number) → last_of (v ∷ vs) ≢ none
last_of-some v [] h = cc
last_of-some v (w ∷ vs) h = last_of-some w vs h

module _ (number_of : Decimal → Number) (is_finite : Number → Bool) where
  -- One step of the loops: `own` is the element's value, `later` what the elements after it give.
  latest_step :
      (own : Option Number) (at : Time) (later : Option LatestPoint) (vs : List Number)
      → value_of later ≡ last_of vs
      → value_of (later_or number_of is_finite later (point_at number_of is_finite own at))
        ≡ last_of (kept number_of is_finite own vs)
  latest_step none at none vs h = h
  latest_step none at (some p) vs h = h
  latest_step (some v) at none [] h = refl
  latest_step (some v) at none (w ∷ vs) h = absurd (last_of-some w vs (sym h))
  latest_step (some v) at (some p) [] h = cc
  latest_step (some v) at (some p) (w ∷ vs) h = h

  empty_step :
      (own : Option Number) (vs : List Number) (rest : Bool)
      → rest ≡ is_nil vs
      → (not (is_some own) && rest) ≡ is_nil (kept number_of is_finite own vs)
  empty_step none vs rest h = h
  empty_step (some v) vs rest h = refl

  buckets_agree :
      (bs : List TrendBucket)
      → (value_of (latest_bucket number_of is_finite bs)
          ≡ last_of (bucket_values number_of is_finite bs))
        × (no_buckets number_of is_finite bs ≡ is_nil (bucket_values number_of is_finite bs))
  unfolding bucket_values latest_bucket no_buckets
  buckets_agree [] = (refl, refl)
  buckets_agree (b ∷ bs) =
      let (latest, empty) = buckets_agree bs in
      let own = finite_or_none number_of is_finite b.value in
      (latest_step own b.bucket_end _ _ latest, empty_step own _ _ empty)

  point_empty :
      (v : Number) → not (is_finite v) ≡ not (is_some (finite_or_none number_of is_finite (some v)))
  point_empty v = ground arith

  points_agree :
      (ps : List TrendPoint)
      → (value_of (latest_of_points number_of is_finite ps)
          ≡ last_of (point_values number_of is_finite ps))
        × (no_points number_of is_finite ps ≡ is_nil (point_values number_of is_finite ps))
  unfolding point_values latest_of_points no_points
  points_agree [] = (refl, refl)
  points_agree (p ∷ ps) =
      let (latest, empty) = points_agree ps in
      let own = finite_or_none number_of is_finite (some (number_of p.value)) in
      (
        latest_step own p.timestamp _ _ latest,
        rw (point_empty (number_of p.value)) (empty_step own _ _ empty),
      )

  agree_of :
      (d : Option Bucketed) (points : List TrendPoint)
      → (value_of (latest_of number_of is_finite d points)
          ≡ last_of (data_of number_of is_finite d points))
        × (is_empty_of number_of is_finite d points ≡ is_nil (data_of number_of is_finite d points))
  unfolding data_of latest_of is_empty_of
  agree_of none points = points_agree points
  agree_of (some d) points = buckets_agree d.buckets

  -- In either mode the latest point has the last value of the series, there is none exactly if the
  -- series has no values, and the series is called empty exactly then.
  pub trends_latest_point-last :
      (response : TrendsResponse) (name color : String)
      → (value_of (trends_latest_point number_of is_finite response)
          ≡ last_of (trends_to_chart_series number_of is_finite response name color).data_points)
        × (is_chart_series_empty number_of is_finite response
            ≡ is_nil (trends_to_chart_series number_of is_finite response name color).data_points)
  unfolding trends_to_chart_series trends_latest_point is_chart_series_empty
  trends_latest_point-last response name color = agree_of response.bucketed response.points
