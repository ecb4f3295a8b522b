-- ===== src/Telemetry/Trends/Scope.antt =====
-- Which readings a trend query answers with: the raw mode, and the tenant of the caller.
use rvf_malinois.Telemetry.Trends.{
  TrendsQuery, ReadingRow, TrendPoint, TrendsResponse, Sql, TrendsBucket, TrendsAggregate,
  policy_or_default, in_scope, point_of, not_later, raw_points, selected, quality_policy_filter,
  answer, query,
}
use rvf_malinois.Telemetry.Resolver.{CanonicalTagRow, resolve}
use mathlib.Core.Path.{fun_ext}
use rvf_malinois.WellTests.Service.{CallerContext}
use rvf_malinois.Prelude.{
  ◌==◌, ◌≡◌, refl, ap, ◌∙◌, min, Uuid, Time, Bool, true, false, ◌&&◌, leb, List, take, filter_by,
  sort_by, InOrder, sort_by-InOrder, count_by, count_by-sort_by, count_by-map, count_by-take,
  count_by-filter_by, All, In, Option, none, some, arith, All-of_map, All-take, All-sort_by,
  All-filter_by_In, InOrder-map, InOrder-take, ◌>>=◌, filter_by-filter_by, ok, >>=-eq-ok,
}

-- `p` is the point of a row of the table that the filters of the query let through.
abbrev pub IsPointOf : CallerContext → TrendsQuery → Uuid → List ReadingRow → TrendPoint → Type 0
IsPointOf ctx q tag rows p =
    (row : ReadingRow) × In row rows × (in_scope ctx q tag row ≡ true) × (p ≡ point_of row)

abbrev pub point_not_later : TrendPoint → TrendPoint → Bool
point_not_later a b = leb a.timestamp b.timestamp

-- The points of raw mode, oldest first: of the selected rows up to an instant, all are there unless
-- they are more than the limit.
pub record AreOldest (ctx : CallerContext) (q : TrendsQuery) (tag : Uuid) (rows : List ReadingRow)
    (points : List TrendPoint) : Type 0 where
  pub selected_rows : All (IsPointOf ctx q tag rows) points
  pub ascending : InOrder point_not_later points
  pub oldest :
      (at : Time)
      → count_by (λ p. leb p.timestamp at) points
        ≡ min q.limit
            (count_by (λ row. in_scope ctx q tag row && leb row.reading.timestamp at) rows)

not_later-total : (a b : ReadingRow) → not_later a b ≡ false → not_later b a ≡ true
not_later-total a b h = ground arith

abbrev is_until : Time → ReadingRow → Bool
is_until at row = leb row.reading.timestamp at

is_until-closed :
    (at : Time) (a b : ReadingRow)
    → not_later a b ≡ true
    → is_until at a ≡ false
    → is_until at b ≡ false
is_until-closed at a b h k = ground arith

raw_points-AreOldest :
    (ctx : CallerContext) (q : TrendsQuery) (tag : Uuid) (rows : List ReadingRow)
    → AreOldest ctx q tag rows (raw_points ctx q tag rows)
unfolding raw_points
raw_points-AreOldest ctx q tag rows =
    let p = in_scope ctx q tag in
    let found = filter_by p rows in
    let sorted = sort_by not_later found in
    let order = sort_by-InOrder not_later not_later-total found in
    record {
      selected_rows = All-of_map point_of (IsPointOf ctx q tag rows) (take q.limit sorted) (
          All-take _ q.limit sorted (
            All-sort_by not_later _ found
              (All-filter_by_In p rows (λ row i h. (row, i, h, refl)))));
      ascending =
          InOrder-map point_of not_later point_not_later (λ a b. refl) (take q.limit sorted)
            (InOrder-take not_later q.limit sorted order);
      oldest = λ at.
          count_by-map point_of (λ p. leb p.timestamp at) (take q.limit sorted)
          ∙ count_by-take not_later (is_until at) (is_until-closed at) q.limit sorted order
          ∙ ap (min q.limit) (
              count_by-sort_by not_later (is_until at) found
              ∙ count_by-filter_by p (is_until at) rows);
    }

answer-raw :
    (sql : Sql) (ctx : CallerContext) (q : TrendsQuery) (tag : CanonicalTagRow)
    → (b : Option TrendsBucket) (a : Option TrendsAggregate) (rows : List ReadingRow)
    → {r : TrendsResponse} → answer sql ctx q tag b a rows ≡ ok r
    → r.bucketed ≡ none
    → r.points ≡ raw_points ctx q r.canonical_tag.id rows
unfolding answer
answer-raw sql ctx q tag none a rows h k = ground arith
answer-raw sql ctx q tag (some b) none rows h k = ground arith
answer-raw sql ctx q tag (some b) (some a) rows h k = absurd (ground arith)

-- Without a bucket, a query answers with the oldest of the selected readings: every point is one of
-- them, the points ascend in time, and of the selected readings up to any instant all are there
-- unless they are more than the limit.
pub query-AreOldest :
    (sql : Sql) (ctx : CallerContext) (q : TrendsQuery) (tags : List CanonicalTagRow)
    → (rows : List ReadingRow) {r : TrendsResponse} → query sql ctx q tags rows ≡ ok r
    → r.bucketed ≡ none
    → AreOldest ctx q r.canonical_tag.id rows r.points
unfolding query
query-AreOldest sql ctx q tags rows {r} h k =
    let (tag, found, answered) =
      >>=-eq-ok (resolve tags q.canonical_tag_id q.canonical_tag_name) _ h in
    rw (answer-raw sql ctx q tag q.bucket q.aggregate rows answered k)
      (raw_points-AreOldest ctx q r.canonical_tag.id rows)

-- The rows of one tenant.
abbrev pub is_own : Uuid → ReadingRow → Bool
is_own tenant row = row.reading.tenant_id == tenant

in_scope-is_own :
    (ctx : CallerContext) (q : TrendsQuery) (tag tenant : Uuid) (row : ReadingRow)
    → ctx.tenant_id ≡ some tenant
    → in_scope ctx q tag row ≡ true
    → is_own tenant row ≡ true
unfolding in_scope
in_scope-is_own ctx q tag tenant row own h = ground arith

answer-own :
    (sql : Sql) (ctx : CallerContext) (q : TrendsQuery) (tag : CanonicalTagRow)
    → (b : Option TrendsBucket) (a : Option TrendsAggregate) (rows : List ReadingRow)
    → (tenant : Uuid) → ctx.tenant_id ≡ some tenant
    → answer sql ctx q tag b a (filter_by (is_own tenant) rows) ≡ answer sql ctx q tag b a rows
unfolding answer raw_points selected
answer-own sql ctx q tag none a rows tenant own =
    rw
      (filter_by-filter_by (in_scope ctx q tag.id) (is_own tenant) rows
        (λ row h. in_scope-is_own ctx q tag.id tenant row own h))
      refl
answer-own sql ctx q tag (some b) none rows tenant own = refl
answer-own sql ctx q tag (some b) (some a) rows tenant own =
    let p = λ (row : ReadingRow).
      in_scope ctx q tag.id row
      && quality_policy_filter (policy_or_default q.quality_policy) row.reading.quality in
    rw
      (filter_by-filter_by p (is_own tenant) rows
        (λ row h. in_scope-is_own ctx q tag.id tenant row own (ground arith)))
      refl

-- To a caller with a tenant a query gives the same answer, or the same error, as if the table had
-- only the rows of that tenant.
pub query-own :
    (sql : Sql) (ctx : CallerContext) (q : TrendsQuery) (tags : List CanonicalTagRow)
    → (rows : List ReadingRow) (tenant : Uuid) → ctx.tenant_id ≡ some tenant
    → query sql ctx q tags (filter_by (is_own tenant) rows) ≡ query sql ctx q tags rows
unfolding query
query-own sql ctx q tags rows tenant own =
    ap (λ k. resolve tags q.canonical_tag_id q.canonical_tag_name >>= k)
      (fun_ext (λ tag. answer-own sql ctx q tag q.bucket q.aggregate rows tenant own))
