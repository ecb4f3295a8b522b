-- ===== src/Telemetry/Trends/Partition.antt =====
-- How the buckets of an answer divide the selected readings.
use rvf_malinois.Telemetry.Trends.{
  trends_query_schema, trends_buckets_max, bucket_count_fits, TrendsQualityPolicy, TrendsBucket,
  TrendsAggregate, TrendsQuery, ReadingRow, TrendBucket, Bucketed, TrendsResponse, Sql, bucket_ms,
  date_bin, generate_series, bucket_grid, joined, group_at, selected, run_bucketed_query, answer,
  query, in_scope,
}
use rvf_malinois.Telemetry.Trends.Grid.{
  date_bin_iff, date_bin_bounds, bucket_grid-aligned, bucket_grid-length, generate_series-done,
  generate_series-next, aligned_next, date_bin-aligned, bucket_ms_pos,
}
use rvf_malinois.Telemetry.Resolver.{CanonicalTagRow, resolve}
use rvf_malinois.WellTests.Service.{CallerContext}
use rvf_malinois.Prelude.{
  subst, ◌%◌, length-map, All-map, All-filter_by, ◌%◌, ℕ, zero, suc, ◌+◌, ◌-◌, ◌≤◌, ◌<◌, ◌≡◌, ◌↔◌,
  refl, sym, ◌∙◌, Time, Uuid, Bool, true, ◌&&◌, Bool-cases, inl, inr, List, [], ◌∷◌, map, length,
  Option, none, some, arith, ltb, leb, count_by, All, ok, >>=-eq-ok, lt-or-le,
}

-- A reading of the half-open interval of a bucket.
abbrev pub is_between : Time → Time → ReadingRow → Bool
is_between start end row = leb start row.reading.timestamp && ltb row.reading.timestamp end

abbrev pub is_from : Time → ReadingRow → Bool
is_from start row = leb start row.reading.timestamp

abbrev pub total : List TrendBucket → ℕ
total [] = 0
total (b ∷ bs) = b.sample_count + total bs

-- The group of a row of the grid has the readings of its interval.
length-group_at :
    (b : TrendsBucket) (rows : List ReadingRow) (start : Time)
    → start % bucket_ms b ≡ 0
    → length (group_at b rows start) ≡ count_by (is_between start (start + bucket_ms b)) rows
unfolding group_at
length-group_at b [] start h = refl
length-group_at b (row ∷ rows) start h =
    rw (date_bin_iff b row.reading.timestamp start h)
      (ground (arith, length-group_at b rows start h))

joined-count :
    (sql : Sql) (b : TrendsBucket) (a : TrendsAggregate) (start : Time) (rows : List ReadingRow)
    → (joined sql b a start rows).sample_count ≡ length rows
unfolding joined
joined-count sql b a start [] = refl
joined-count sql b a start (row ∷ rows) = refl

-- The readings from an instant on are those of the bucket that starts there and those after it.
count_by-is_from :
    (start w : ℕ) (rows : List ReadingRow)
    → count_by (is_from start) rows
      ≡ count_by (is_between start (start + w)) rows + count_by (is_from (start + w)) rows
count_by-is_from start w [] = refl
count_by-is_from start w (row ∷ rows) = ground (arith, count_by-is_from start w rows)

count_by-is_from_end :
    (start end : Time) (rows : List ReadingRow)
    → end ≤ start
    → All (λ row. row.reading.timestamp < end) rows
    → count_by (is_from start) rows ≡ 0
count_by-is_from_end start end [] h k = refl
count_by-is_from_end start end (row ∷ rows) h k =
    ground (arith, count_by-is_from_end start end rows h k.1)

module _ (sql : Sql) (b : TrendsBucket) (a : TrendsAggregate) (rows : List ReadingRow) where
  abbrev row_at : Time → TrendBucket
  row_at start = joined sql b a start (group_at b rows start)

  total-series :
      (fuel start end : ℕ)
      → start % bucket_ms b ≡ 0
      → end ≤ start + fuel
      → All (λ row. row.reading.timestamp < end) rows
      → total (map row_at (generate_series fuel start end (bucket_ms b)))
        ≡ count_by (is_from start) rows
  unfolding generate_series
  total-series zero start end h f k = sym (count_by-is_from_end start end rows (omega arith) k)
  total-series (suc fuel) start end h f k = elim (lt-or-le start end) [
    | inr e ↦
        rw (generate_series-done (suc fuel) start end (bucket_ms b) e)
          (sym (count_by-is_from_end start end rows e k))
    | inl e ↦ rw (generate_series-next fuel start end (bucket_ms b) e) (
        omega (
          arith,
          joined-count sql b a start (group_at b rows start),
          length-group_at b rows start h,
          count_by-is_from start (bucket_ms b) rows,
          total-series fuel (start + bucket_ms b) end (aligned_next b start h)
              (let p = bucket_ms_pos b in omega arith) k,
        ))
  ]

count_by-is_from_all :
    (start : Time) (rows : List ReadingRow)
    → All (λ row. start ≤ row.reading.timestamp) rows
    → count_by (is_from start) rows ≡ length rows
count_by-is_from_all start [] h = refl
count_by-is_from_all start (row ∷ rows) h = ground (arith, count_by-is_from_all start rows h.1)

-- A bucket counts the readings of its interval, is as wide as asked for, and has a value unless it is
-- empty.
abbrev pub IsCounted : TrendsBucket → List ReadingRow → TrendBucket → Type 0
IsCounted b rows bucket =
    (bucket.bucket_end ≡ bucket.bucket_start + bucket_ms b)
    × (bucket.sample_count ≡ count_by (is_between bucket.bucket_start bucket.bucket_end) rows)
    × ((bucket.value ≡ none) ↔ (bucket.sample_count ≡ 0))

-- Each bucket starts where the one before it ends.
abbrev pub Contiguous : Time → List TrendBucket → Type 0
Contiguous start [] = Unit
Contiguous start (bucket ∷ buckets) =
    (bucket.bucket_start ≡ start) × Contiguous bucket.bucket_end buckets

joined-IsCounted :
    (sql : Sql) (b : TrendsBucket) (a : TrendsAggregate) (rows : List ReadingRow) (start : Time)
    → (group : List ReadingRow)
    → length group ≡ count_by (is_between start (start + bucket_ms b)) rows
    → IsCounted b rows (joined sql b a start group)
unfolding joined
joined-IsCounted sql b a rows start [] h = (refl, h, ((λ e. refl), (λ e. refl)))
joined-IsCounted sql b a rows start (row ∷ group) h =
    (refl, h, ((λ e. cc), (λ e. absurd (omega arith))))

module _ (sql : Sql) (b : TrendsBucket) (a : TrendsAggregate) (rows : List ReadingRow) where
  All-IsCounted :
      (starts : List Time)
      → All (λ g. g % bucket_ms b ≡ 0) starts
      → All (IsCounted b rows) (map (row_at sql b a rows) starts)
  All-IsCounted [] h = tt
  All-IsCounted (start ∷ starts) (h, k) = (
    joined-IsCounted sql b a rows start (group_at b rows start) (length-group_at b rows start h),
    All-IsCounted starts k,
  )

  joined-start :
      (start : Time) (group : List ReadingRow)
      → ((joined sql b a start group).bucket_start ≡ start)
        × ((joined sql b a start group).bucket_end ≡ start + bucket_ms b)
  unfolding joined
  joined-start start [] = (refl, refl)
  joined-start start (row ∷ group) = (refl, refl)

  series-Contiguous :
      (fuel start end : ℕ)
      → Contiguous start (map (row_at sql b a rows) (generate_series fuel start end (bucket_ms b)))
  unfolding generate_series
  series-Contiguous zero start end = tt
  series-Contiguous (suc fuel) start end = elim (Bool-cases (ltb start end)) [
    | inr e ↦ rw e tt
    | inl e ↦
        let (starts, ends) = joined-start start (group_at b rows start) in
        rw (e, ends) (starts, series-Contiguous fuel (start + bucket_ms b) end)
  ]

-- The buckets go on from each other without a gap, the first from no later than `from`; each counts
-- the rows of its own interval; and together they count every row once.
pub record Divides (b : TrendsBucket) (from : Time) (rows : List ReadingRow)
    (buckets : List TrendBucket) : Type 0 where
  pub start : Time
  pub starts : start ≤ from
  pub contiguous : Contiguous start buckets
  pub counted : All (IsCounted b rows) buckets
  pub whole : total buckets ≡ length rows

-- Rows of the window `[from, to)`.
abbrev pub InWindow : Time → Time → ReadingRow → Type 0
InWindow from to row = (from ≤ row.reading.timestamp) × (row.reading.timestamp < to)

run_bucketed_query-Divides :
    (sql : Sql) (b : TrendsBucket) (a : TrendsAggregate) (from to : Time) (rows : List ReadingRow)
    → All (InWindow from to) rows
    → Divides b from rows (run_bucketed_query sql b a from to rows)
unfolding run_bucketed_query bucket_grid
run_bucketed_query-Divides sql b a from to rows h =
    let first = date_bin (bucket_ms b) from in
    let bounds = date_bin_bounds b from in
    record {
      start = first;
      starts = bounds.0;
      contiguous = series-Contiguous sql b a rows (to - first) first to;
      counted = All-IsCounted sql b a rows (bucket_grid b from to) (bucket_grid-aligned b from to);
      whole =
          total-series sql b a rows (to - first) first to (date_bin-aligned b from) (omega arith)
            (All-map rows (λ row k. k.1) h)
          ∙ count_by-is_from_all first rows
              (All-map rows (λ row k. omega (arith, bounds.0, k.0)) h);
    }

selected-InWindow :
    (ctx : CallerContext) (q : TrendsQuery) (tag : Uuid) (policy : TrendsQualityPolicy)
    → (rows : List ReadingRow) → All (InWindow q.from q.to) (selected ctx q tag policy rows)
unfolding selected in_scope
selected-InWindow ctx q tag policy rows = All-filter_by _ rows (λ row h. ground arith)

answer-bucketed :
    (sql : Sql) (ctx : CallerContext) (q : TrendsQuery) (tag : CanonicalTagRow)
    → (b : Option TrendsBucket) (a : Option TrendsAggregate) (rows : List ReadingRow)
    → {r : TrendsResponse} {d : Bucketed} → answer sql ctx q tag b a rows ≡ ok r
    → r.bucketed ≡ some d
    → (b ≡ some d.bucket)
      × (d.buckets
          ≡ run_bucketed_query sql d.bucket d.aggregate q.from q.to
              (selected ctx q r.canonical_tag.id d.quality_policy rows))
unfolding answer
answer-bucketed sql ctx q tag none a rows h k = absurd (ground arith)
answer-bucketed sql ctx q tag (some b) none rows h k = absurd (ground arith)
answer-bucketed sql ctx q tag (some b) (some a) rows h k = ground arith

-- Where a query answers with buckets, these divide the readings that its filters and its quality
-- policy select: the buckets follow each other without a gap from no later than the start of the
-- window, each counts the selected readings of its own interval and has no value exactly if there are
-- none, and together they count every selected reading once.
pub query-Divides :
    (sql : Sql) (ctx : CallerContext) (q : TrendsQuery) (tags : List CanonicalTagRow)
    → (rows : List ReadingRow) {r : TrendsResponse} {d : Bucketed}
    → query sql ctx q tags rows ≡ ok r
    → r.bucketed ≡ some d
    → Divides d.bucket q.from (selected ctx q r.canonical_tag.id d.quality_policy rows) d.buckets
unfolding query
query-Divides sql ctx q tags rows {r} {d} h k =
    let (tag, found, answered) =
      >>=-eq-ok (resolve tags q.canonical_tag_id q.canonical_tag_name) _ h in
    let (same, e) = answer-bucketed sql ctx q tag q.bucket q.aggregate rows answered k in
    rw e (
      run_bucketed_query-Divides sql d.bucket d.aggregate q.from q.to
        (selected ctx q r.canonical_tag.id d.quality_policy rows)
        (selected-InWindow ctx q r.canonical_tag.id d.quality_policy rows))

accepted-fits :
    (q : TrendsQuery) → trends_query_schema q ≡ true → bucket_count_fits q.bucket q.from q.to ≡ true
unfolding trends_query_schema
accepted-fits q h = ground arith

-- A query that the contract accepts is answered with at most one bucket more than
-- `TRENDS_BUCKETS_MAX`.
pub query-length_le :
    (sql : Sql) (ctx : CallerContext) (q : TrendsQuery) (tags : List CanonicalTagRow)
    → (rows : List ReadingRow) {r : TrendsResponse} {d : Bucketed} → trends_query_schema q ≡ true
    → query sql ctx q tags rows ≡ ok r
    → r.bucketed ≡ some d
    → length d.buckets ≤ trends_buckets_max + 1
unfolding query run_bucketed_query
query-length_le sql ctx q tags rows {r} {d} accepted h k =
    let (tag, found, answered) =
      >>=-eq-ok (resolve tags q.canonical_tag_id q.canonical_tag_name) _ h in
    let (same, e) = answer-bucketed sql ctx q tag q.bucket q.aggregate rows answered k in
    let fits = accepted-fits q accepted in
    let fits_at = subst (λ o. bucket_count_fits o q.from q.to ≡ true) same fits in
    rw (e, length-map) (bucket_grid-length d.bucket q.from q.to fits_at)
