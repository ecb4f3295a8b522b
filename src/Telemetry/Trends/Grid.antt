-- ===== src/Telemetry/Trends/Grid.antt =====
-- The bucket grid: aligned to the origin, without gaps, and bounded by the contract's cap.
use rvf_malinois.Telemetry.Trends.{
  TrendsBucket, one_minute, five_minutes, fifteen_minutes, one_hour, one_day, bucket_ms, date_bin,
  generate_series, bucket_grid, ceil_div, bucket_count_fits, trends_buckets_max,
}
use rvf_malinois.Prelude.{
  any_by, ◌||◌, ap, ◌∙◌, sym, lt-or-le, ◌&&◌, ℕ, zero, suc, ◌+◌, ◌-◌, ◌*◌, ◌%◌, ◌≤◌, ◌<◌, ◌==◌, ◌≡◌,
  refl, Time, true, Bool-cases, inl, inr, [], ◌∷◌, length, some, arith, ltb, leb, All,
}

-- An instant is in the bucket that `date_bin` gives it.
pub date_bin_bounds :
    (b : TrendsBucket) (t : Time)
    → (date_bin (bucket_ms b) t ≤ t) × (t < date_bin (bucket_ms b) t + bucket_ms b)
unfolding date_bin
date_bin_bounds one_minute t = ground arith
date_bin_bounds five_minutes t = ground arith
date_bin_bounds fifteen_minutes t = ground arith
date_bin_bounds one_hour t = ground arith
date_bin_bounds one_day t = ground arith

pub date_bin-aligned : (b : TrendsBucket) (t : Time) → date_bin (bucket_ms b) t % bucket_ms b ≡ 0
unfolding date_bin
date_bin-aligned one_minute t = ground arith
date_bin-aligned five_minutes t = ground arith
date_bin-aligned fifteen_minutes t = ground arith
date_bin-aligned one_hour t = ground arith
date_bin-aligned one_day t = ground arith

-- A row of the grid has the instants from its start up to the next row.
pub date_bin_iff :
    (b : TrendsBucket) (t g : Time)
    → g % bucket_ms b ≡ 0
    → (date_bin (bucket_ms b) t == g) ≡ (leb g t && ltb t (g + bucket_ms b))
unfolding date_bin
date_bin_iff one_minute t g h = ground arith
date_bin_iff five_minutes t g h = ground arith
date_bin_iff fifteen_minutes t g h = ground arith
date_bin_iff one_hour t g h = ground arith
date_bin_iff one_day t g h = ground arith

-- A series that starts at its end or later has no terms.
pub generate_series-done :
    (fuel start end step : ℕ) → end ≤ start → generate_series fuel start end step ≡ []
unfolding generate_series
generate_series-done zero start end step h = refl
generate_series-done (suc fuel) start end step h = ground arith

-- Any other has its start as its first term.
pub generate_series-next :
    (fuel start end step : ℕ)
    → start < end
    → generate_series (suc fuel) start end step
      ≡ start ∷ generate_series fuel (start + step) end step
unfolding generate_series
generate_series-next fuel start end step h =
    let e : ltb start end ≡ true = ground arith in rw e refl

-- The steps of a series stay within its span, rounded up to whole steps.
generate_series-length :
    (fuel start end step : ℕ)
    → length (generate_series fuel start end step) * step ≤ end - start + (step - 1)
unfolding generate_series
generate_series-length zero start end step = omega arith
generate_series-length (suc fuel) start end step = elim (lt-or-le start end) [
  | inr e ↦ rw (generate_series-done (suc fuel) start end step e) (omega arith)
  | inl e ↦ rw (generate_series-next fuel start end step e) (elim (lt-or-le (start + step) end) [
    | inl f ↦ grind (arith, generate_series-length fuel (start + step) end step)
    | inr f ↦ rw (generate_series-done fuel (start + step) end step f) (omega arith)
  ])
]

-- The steps of the grid, which starts with the bucket of `from`.
bucket_grid-steps :
    (b : TrendsBucket) (from to : Time)
    → length (bucket_grid b from to) * bucket_ms b ≤ to - from + (bucket_ms b + bucket_ms b - 2)
unfolding bucket_grid
bucket_grid-steps b from to =
    let start = date_bin (bucket_ms b) from in
    omega
      (arith, date_bin_bounds b from, generate_series-length (to - start) start to (bucket_ms b))

-- The grid of a window that the contract accepts has at most one bucket more than the contract counts.
pub bucket_grid-length :
    (b : TrendsBucket) (from to : Time)
    → bucket_count_fits (some b) from to ≡ true
    → length (bucket_grid b from to) ≤ trends_buckets_max + 1
unfolding bucket_count_fits ceil_div
bucket_grid-length one_minute from to h = ground (arith, bucket_grid-steps one_minute from to)
bucket_grid-length five_minutes from to h = ground (arith, bucket_grid-steps five_minutes from to)
bucket_grid-length fifteen_minutes from to h =
    ground (arith, bucket_grid-steps fifteen_minutes from to)
bucket_grid-length one_hour from to h = ground (arith, bucket_grid-steps one_hour from to)
bucket_grid-length one_day from to h = ground (arith, bucket_grid-steps one_day from to)

pub bucket_ms_pos : (b : TrendsBucket) → 1 ≤ bucket_ms b
bucket_ms_pos b = ground arith

pub aligned_next :
    (b : TrendsBucket) (start : Time)
    → start % bucket_ms b ≡ 0
    → (start + bucket_ms b) % bucket_ms b ≡ 0
aligned_next one_minute start h = omega arith
aligned_next five_minutes start h = omega arith
aligned_next fifteen_minutes start h = omega arith
aligned_next one_hour start h = omega arith
aligned_next one_day start h = omega arith

-- Row by row: the grid's rows are aligned.
generate_series-aligned :
    (b : TrendsBucket) (fuel start end : ℕ)
    → start % bucket_ms b ≡ 0
    → All (λ g. g % bucket_ms b ≡ 0) (generate_series fuel start end (bucket_ms b))
unfolding generate_series
generate_series-aligned b zero start end h = tt
generate_series-aligned b (suc fuel) start end h = elim (Bool-cases (ltb start end)) [
  | inl e ↦
      rw e (h, generate_series-aligned b fuel (start + bucket_ms b) end (aligned_next b start h))
  | inr e ↦ rw e tt
]

pub bucket_grid-aligned :
    (b : TrendsBucket) (from to : Time) → All (λ g. g % bucket_ms b ≡ 0) (bucket_grid b from to)
unfolding bucket_grid
bucket_grid-aligned b from to =
    let start = date_bin (bucket_ms b) from in
    generate_series-aligned b (to - start) start to (date_bin-aligned b from)

-- Any two amounts of fuel that reach the end give the same series.
generate_series_any :
    (m n start end step : ℕ)
    → 1 ≤ step
    → end ≤ start + m
    → end ≤ start + n
    → generate_series m start end step ≡ generate_series n start end step
generate_series_any zero n start end step s h k =
    rw (generate_series-done zero start end step (omega arith))
      (sym (generate_series-done n start end step (omega arith)))
generate_series_any (suc m) zero start end step s h k =
    generate_series-done (suc m) start end step (omega arith)
    ∙ sym (generate_series-done 0 start end step (omega arith))
generate_series_any (suc m) (suc n) start end step s h k = elim (lt-or-le start end) [
  | inr e ↦
      generate_series-done (suc m) start end step e
      ∙ sym (generate_series-done (suc n) start end step e)
  | inl e ↦
      generate_series-next m start end step e
      ∙ ap (λ rest. start ∷ rest)
          (generate_series_any m n (start + step) end step s (omega arith) (omega arith))
      ∙ sym (generate_series-next n start end step e)
]

-- From an aligned start, the aligned instants are the start and those a bucket later on.
aligned_split :
    (b : TrendsBucket) (start g : Time)
    → start % bucket_ms b ≡ 0
    → (g % bucket_ms b == 0 && leb start g)
      ≡ (start == g || g % bucket_ms b == 0 && leb (start + bucket_ms b) g)
aligned_split one_minute start g h = ground arith
aligned_split five_minutes start g h = ground arith
aligned_split fifteen_minutes start g h = ground arith
aligned_split one_hour start g h = ground arith
aligned_split one_day start g h = ground arith

-- The members of a series with enough fuel.
generate_series-members :
    (b : TrendsBucket) (fuel start end g : ℕ)
    → start % bucket_ms b ≡ 0
    → end ≤ start + fuel
    → any_by (λ x. x == g) (generate_series fuel start end (bucket_ms b))
      ≡ (g % bucket_ms b == 0 && leb start g && ltb g end)
generate_series-members b zero start end g h k =
    rw (generate_series-done zero start end (bucket_ms b) (omega arith)) (ground arith)
generate_series-members b (suc fuel) start end g h k = elim (lt-or-le start end) [
  | inr e ↦ rw (generate_series-done (suc fuel) start end (bucket_ms b) e) (ground arith)
  | inl e ↦ rw (generate_series-next fuel start end (bucket_ms b) e) (
      ground (
        arith,
        generate_series-members b fuel (start + bucket_ms b) end g (aligned_next b start h),
        aligned_split b start g h,
        bucket_ms_pos b,
      ))
]

-- The grid is the whole series: run for any number of steps that reaches the end of the window, or for
-- longer, the series from the bucket of `from` gives the grid; and an instant is in the grid exactly if
-- it is a multiple of the bucket's width, not before the bucket of `from`, and before `to`.
pub bucket_grid-enough :
    (b : TrendsBucket) (from to g : Time) (fuel : ℕ)
    → to ≤ date_bin (bucket_ms b) from + fuel
    → (generate_series fuel (date_bin (bucket_ms b) from) to (bucket_ms b) ≡ bucket_grid b from to)
      × (any_by (λ x. x == g) (bucket_grid b from to)
          ≡ (g % bucket_ms b == 0 && leb (date_bin (bucket_ms b) from) g && ltb g to))
unfolding bucket_grid
bucket_grid-enough b from to g fuel h =
    let start = date_bin (bucket_ms b) from in
    (
      generate_series_any fuel (to - start) start to (bucket_ms b) (bucket_ms_pos b) h
          (omega arith),
      generate_series-members b (to - start) start to g (date_bin-aligned b from) (omega arith),
    )
