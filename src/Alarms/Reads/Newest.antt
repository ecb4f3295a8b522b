-- ===== src/Alarms/Reads/Newest.antt =====
-- Which events an alarm read answers with.
use mathlib.Core.Path.{fun_ext}
use rvf_malinois.WellTests.Service.{CallerContext}
use rvf_malinois.Telemetry.Resolver.{resolve_tag, not_found, CanonicalTagRow, resolve}
use rvf_malinois.Alarms.Reads.{
  AlarmEventsQuery, AlarmEventRecord, AlarmEventRow, AlarmEventsResponse, row_of, events_where,
  newest_first, list_events, query,
}
use rvf_malinois.Prelude.{
  subst, ◌==◌, ◌≡◌, refl, ap, ◌∙◌, min, Uuid, Time, Bool, true, false, ◌&&◌, leb, List, take,
  filter_by, sort_by, InOrder, sort_by-InOrder, count_by, count_by-sort_by, count_by-map,
  count_by-take, count_by-filter_by, All, In, Option, none, some, arith, All-of_map, All-take,
  All-sort_by, All-filter_by_In, InOrder-map, InOrder-take, filter_by-filter_by, ok, err, ◌>>=◌,
  >>=-eq-ok, find_by,
}

abbrev pub event_newest_first : AlarmEventRow → AlarmEventRow → Bool
event_newest_first a b = leb b.first_triggered_at a.first_triggered_at

-- The events, newest first: each is the view of a row that the filters let through, and of those
-- rows from any instant on, all are there unless they are more than the limit.
pub record AreNewest (ctx : CallerContext) (q : AlarmEventsQuery) (tag : Option Uuid)
    (rows : List AlarmEventRecord) (events : List AlarmEventRow) : Type 0 where
  pub selected_rows :
      All
        (λ e.
          (row : AlarmEventRecord) × In row rows
          × (events_where ctx q tag row ≡ true)
          × (e ≡ row_of row))
        events
  pub descending : InOrder event_newest_first events
  pub newest :
      (at : Time)
      → count_by (λ e. leb at e.first_triggered_at) events
        ≡ min q.limit
            (count_by (λ row. events_where ctx q tag row && leb at row.first_triggered_at) rows)

newest_first-total : (a b : AlarmEventRecord) → newest_first a b ≡ false → newest_first b a ≡ true
newest_first-total a b h = ground arith

abbrev is_since : Time → AlarmEventRecord → Bool
is_since at row = leb at row.first_triggered_at

is_since-closed :
    (at : Time) (a b : AlarmEventRecord)
    → newest_first a b ≡ true
    → is_since at a ≡ false
    → is_since at b ≡ false
is_since-closed at a b h k = ground arith

list_events-AreNewest :
    (ctx : CallerContext) (q : AlarmEventsQuery) (tag : Option Uuid) (rows : List AlarmEventRecord)
    → AreNewest ctx q tag rows (list_events ctx q tag rows).events
unfolding list_events row_of
list_events-AreNewest ctx q tag rows =
    let p = events_where ctx q tag in
    let found = filter_by p rows in
    let sorted = sort_by newest_first found in
    let order = sort_by-InOrder newest_first newest_first-total found in
    record {
      selected_rows = All-of_map row_of _ (take q.limit sorted) (
          All-take _ q.limit sorted (
            All-sort_by newest_first _ found
              (All-filter_by_In p rows (λ row i h. (row, i, h, refl)))));
      descending =
          InOrder-map row_of newest_first event_newest_first (λ a b. refl) (take q.limit sorted)
            (InOrder-take newest_first q.limit sorted order);
      newest = λ at.
          count_by-map row_of (λ e. leb at e.first_triggered_at) (take q.limit sorted)
          ∙ count_by-take newest_first (is_since at) (is_since-closed at) q.limit sorted order
          ∙ ap (min q.limit) (
              count_by-sort_by newest_first (is_since at) found
              ∙ count_by-filter_by p (is_since at) rows);
    }

-- A read that is answered names a tag that exists or none, and answers with the newest of the events
-- that its filters select: each event is the view of one of them, the events descend in time, and of
-- the selected ones from any instant on all are there unless they are more than the limit.
pub query-AreNewest :
    (ctx : CallerContext) (q : AlarmEventsQuery) (tags : List CanonicalTagRow)
    (rows : List AlarmEventRecord) {r : AlarmEventsResponse}
    → query ctx q tags rows ≡ ok r
    → (tag : Option Uuid) × (resolve_tag tags q.canonical_tag_id q.canonical_tag_name ≡ ok tag)
      × AreNewest ctx q tag rows r.events
unfolding query
query-AreNewest ctx q tags rows {r} h =
    let (tag, found, answered) =
      >>=-eq-ok (resolve_tag tags q.canonical_tag_id q.canonical_tag_name) _ h in
    let same : list_events ctx q tag rows ≡ r = cc in
    (
      tag,
      found,
      subst (λ a. AreNewest ctx q tag rows a.events) same (list_events-AreNewest ctx q tag rows),
    )

-- A read that names a tag that does not exist is refused as not found, whatever the table holds.
query-unknown_tag :
    (ctx : CallerContext) (q : AlarmEventsQuery) (tags : List CanonicalTagRow)
    (rows : List AlarmEventRecord) (id : Uuid)
    → q.canonical_tag_id ≡ some id
    → q.canonical_tag_name ≡ none
    → find_by (λ t. t.id == id) tags ≡ none
    → query ctx q tags rows ≡ err not_found
unfolding query resolve_tag resolve
query-unknown_tag ctx q tags rows id given unnamed unknown = ground arith

abbrev pub is_own : Uuid → AlarmEventRecord → Bool
is_own tenant row = row.tenant_id == tenant

events_where-is_own :
    (ctx : CallerContext) (q : AlarmEventsQuery) (tag : Option Uuid) (tenant : Uuid)
    (row : AlarmEventRecord)
    → ctx.tenant_id ≡ some tenant
    → events_where ctx q tag row ≡ true
    → is_own tenant row ≡ true
unfolding events_where
events_where-is_own ctx q tag tenant row own h = ground arith

-- To a caller with a tenant a read gives the same answer, or the same error, as if the table had only
-- the events of that tenant.
events-own :
    (ctx : CallerContext) (q : AlarmEventsQuery) (tags : List CanonicalTagRow)
    (rows : List AlarmEventRecord) (tenant : Uuid)
    → ctx.tenant_id ≡ some tenant
    → query ctx q tags (filter_by (is_own tenant) rows) ≡ query ctx q tags rows
unfolding query list_events
events-own ctx q tags rows tenant own =
    ap (λ k. resolve_tag tags q.canonical_tag_id q.canonical_tag_name >>= k)
      (fun_ext (λ tag.
        rw
          (filter_by-filter_by (events_where ctx q tag) (is_own tenant) rows
            (λ row h. events_where-is_own ctx q tag tenant row own h))
          refl))
