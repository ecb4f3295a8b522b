-- ===== src/Telemetry/Latest/Fresh.antt =====
-- What the latest values answer, and that they show what the projection has written.
use rvf_malinois.Store.Rows.{LiveReading}
use rvf_malinois.Store.Effects.{Env, World}
use rvf_malinois.WellTests.Service.{CallerContext}
use rvf_malinois.WellTests.Reads.{matches_if_given}
use rvf_malinois.Telemetry.Resolver.{CanonicalTagRow, resolve_tag}
use rvf_malinois.Telemetry.Projection.{
  Race, AcceptedTelemetryProjectionInput, LiveReadingProjectionResult, has_key, project, created,
  updated, skipped_quality, skipped_stale, skipped_equal_timestamp,
}
use rvf_malinois.Telemetry.Projection.Leaves.{Left, LeftOut, project-Left}
use rvf_malinois.Telemetry.Latest.{
  LatestQuery, LatestResponse, LatestValueRow, latest_first, live_where, value_row, list_values,
  query_latest,
}
use rvf_malinois.Prelude.{
  some, ◌==◌, none, All-In, All, ap, refl, In-filter_by, In-sort_by, In-map, subst, ◌&&◌, arith,
  count_by, sort_by, true, ok, In, InOrder, filter_by, Option, List, leb, ◌≡◌, Uuid, Bool,
}

-- The live readings that a read is about, by the tenant of the caller, the unit, and the tag.
abbrev pub is_asked_for : Option Uuid → Uuid → Option Uuid → LiveReading → Bool
is_asked_for none unit none row = row.unit_id == unit
is_asked_for none unit (some tag) row = row.unit_id == unit && row.canonical_tag_id == tag
is_asked_for (some tenant) unit none row = row.unit_id == unit && row.tenant_id == tenant
is_asked_for (some tenant) unit (some tag) row =
    row.unit_id == unit && row.tenant_id == tenant && row.canonical_tag_id == tag

abbrev pub value_latest_first : LatestValueRow → LatestValueRow → Bool
value_latest_first a b = leb b.timestamp a.timestamp

module _ (tag_of : Uuid → CanonicalTagRow) where
  -- The values, latest first, are the views of exactly the rows that are asked for: as many pass any
  -- test.
  pub record AreLatest (ctx : CallerContext) (q : LatestQuery) (tag : Option Uuid)
      (rows : List LiveReading) (values : List LatestValueRow) : Type 0 where
    pub descending : InOrder value_latest_first values
    pub complete :
        (p : LatestValueRow → Bool)
        → count_by p values
          ≡ count_by
              (λ row. is_asked_for ctx.tenant_id q.unit_id tag row && p (value_row tag_of row))
              rows

  -- A row that the filters let through is shown.
  shown_lem :
      (ctx : CallerContext) (q : LatestQuery) (tag : Option Uuid) (rows : List LiveReading)
      (row : LiveReading)
      → In row rows
      → live_where ctx q tag row ≡ true
      → In (value_row tag_of row) (list_values tag_of ctx q tag rows).values
  unfolding list_values
  shown_lem ctx q tag rows row i h =
      let found = filter_by (live_where ctx q tag) rows in
      In-map (value_row tag_of) (sort_by latest_first found)
        (In-sort_by latest_first found (In-filter_by (live_where ctx q tag) rows i h))

  module _ (input : AcceptedTelemetryProjectionInput) where
    -- The reading that was projected is the value.
    abbrev pub IsReading : LatestValueRow → Type 0
    IsReading v =
        (v.timestamp ≡ input.timestamp)
        × (v.value ≡ input.value)
        × (v.latest_telemetry_reading_id ≡ input.telemetry_reading_id)

    abbrev pub ShowsValue : (LatestValueRow → Type 0) → List LatestValueRow → Type 0
    ShowsValue C values =
        (v : LatestValueRow) × In v values
        × (v.sensor_id ≡ input.sensor_id)
        × (v.canonical_tag ≡ tag_of input.canonical_tag_id)
        × C v

    -- What a result promises of the values shown.
    abbrev pub Shows : LiveReadingProjectionResult → List LatestValueRow → Type 0
    Shows (created id) values = ShowsValue IsReading values
    Shows updated values = ShowsValue IsReading values
    Shows skipped_equal_timestamp values = ShowsValue (λ v. v.timestamp ≡ input.timestamp) values
    Shows skipped_stale values = Unit
    Shows skipped_quality values = Unit

    -- The rows of the projection key are of the tenant of the input.
    abbrev pub Owns : List LiveReading → Type 0
    Owns rows = All (λ row. has_key input row ≡ true → row.tenant_id ≡ input.tenant_id) rows

    has_key-tag :
        (row : LiveReading)
        → has_key input row ≡ true
        → row.canonical_tag_id ≡ input.canonical_tag_id
    has_key-tag row h = ground arith

    has_key-sensor :
        (row : LiveReading) → has_key input row ≡ true → row.sensor_id ≡ input.sensor_id
    has_key-sensor row h = ground arith

    module _ (ctx : CallerContext) (q : LatestQuery) (tag : Option Uuid)
        (own : matches_if_given ctx.tenant_id input.tenant_id ≡ true)
        (unit : q.unit_id ≡ input.unit_id)
        (asked : matches_if_given tag input.canonical_tag_id ≡ true) where
      key-live_where :
          (row : LiveReading)
          → has_key input row ≡ true
          → row.tenant_id ≡ input.tenant_id
          → live_where ctx q tag row ≡ true
      unfolding live_where
      key-live_where row h t = ground arith

      -- A row of the key in the table is shown, with what its columns carry.
      row-ShowsValue :
          (C : LatestValueRow → Type 0) (rows : List LiveReading) (row : LiveReading)
          → Owns rows
          → In row rows
          → has_key input row ≡ true
          → C (value_row tag_of row)
          → ShowsValue C (list_values tag_of ctx q tag rows).values
      unfolding value_row
      row-ShowsValue C rows row o i h c = (
        value_row tag_of row,
        shown_lem ctx q tag rows row i (key-live_where row h (All-In _ o i h)),
        has_key-sensor row h,
        ap tag_of (has_key-tag row h),
        c,
      )

      Left-Shows :
          (r : LiveReadingProjectionResult) (w : World)
          → Owns w.db.live
          → Left input r w
          → Shows r (list_values tag_of ctx q tag w.db.live).values
      unfolding value_row
      Left-Shows (created id) w o (row, i, h, c) = row-ShowsValue IsReading w.db.live row o i h c
      Left-Shows updated w o (row, i, h, c) = row-ShowsValue IsReading w.db.live row o i h c
      Left-Shows skipped_equal_timestamp w o (row, i, h, c) =
          row-ShowsValue (λ v. v.timestamp ≡ input.timestamp) w.db.live row o i h c
      Left-Shows skipped_stale w o l = tt
      Left-Shows skipped_quality w o l = tt

    -- Whatever other transactions commit between the statements of the projection of a reading: once it
    -- has returned, and the table has only rows of the reading's tenant under its key, a read of the
    -- latest values of its unit that names its tag or none, by its tenant or by a caller without one,
    -- shows a value of its sensor and tag: the reading itself if a row was created or updated, and one of
    -- the same instant if the timestamp was found equal. Of a reading found stale nothing is said.
    pub project-query_latest :
        (ctx : CallerContext) (q : LatestQuery) (tags : List CanonicalTagRow) (tag : Option Uuid)
        (env : Env) (race : Race) (w w' : World) (r : LiveReadingProjectionResult)
        → project env race input w ≡ (ok r, w')
        → Owns w'.db.live
        → matches_if_given ctx.tenant_id input.tenant_id ≡ true
        → q.unit_id ≡ input.unit_id
        → resolve_tag tags q.canonical_tag_id q.canonical_tag_name ≡ ok tag
        → matches_if_given tag input.canonical_tag_id ≡ true
        → (a : LatestResponse) × (query_latest tag_of ctx q tags w'.db.live ≡ ok a)
          × Shows r a.values
    unfolding query_latest
    project-query_latest ctx q tags tag env race w w' r run o own unit found asked =
        let left : Left input r w' = subst (LeftOut input) run (project-Left input env race w) in
        (
          list_values tag_of ctx q tag w'.db.live,
          rw found refl,
          Left-Shows ctx q tag own unit asked r w' o left,
        )
