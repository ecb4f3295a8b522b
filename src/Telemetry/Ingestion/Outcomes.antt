-- ===== src/Telemetry/Ingestion/Outcomes.antt =====
-- What each outcome of a sample says of the tables and of the log of emitted events.
use rvf_malinois.Store.Endings.{Ends}
use rvf_malinois.Store.Frames.{Same}
use rvf_malinois.Telemetry.Ingestion.Service.{or_default, is_mapping}
use rvf_malinois.Telemetry.Ingestion.Contracts.{
  value_str, ingestion_max_late_window_ms, ingestion_max_future_skew_ms, rejected_quarantined,
  duplicate, conflict_quarantined, accepted, SampleResult, Outcome,
}
use rvf_malinois.Realtime.Events.{payload_tenant, PendingRealtimeEmit}
use rvf_malinois.Store.Rows.{CanonicalTag, IngestionError, QuarantineReason, Db}
use rvf_malinois.Telemetry.Ingestion.Storing.{accepted_emit, new_reading, Normalized, SampleContext}
use rvf_malinois.Telemetry.Ingestion.Contracts.{
  accepted, duplicate, conflict_quarantined, rejected_quarantined, rejected_request,
}
use rvf_malinois.Prelude.{
  All, true, ◌+◌, ◌≤◌, str_eq, ◌==◌, ◌≡◌, find_by, Uuid, some, ◌∷◌, ◌++◌, List,
}
use rvf_malinois.Store.Effects.{World, M, Env}

-- The event is of the tenant of the sample's source, whose room it goes to.
abbrev pub IsOwn : SampleContext → PendingRealtimeEmit → Type 0
IsOwn ctx event = payload_tenant event ≡ ctx.source.tenant_id

-- What the sections before the transaction have established of a sample that reaches it.
pub record Admissible (env : Env) (ctx : SampleContext) (d : Db) (n : Normalized) : Type 0 where
  pub mapping_found : find_by (is_mapping env ctx) d.mappings ≡ some n.mapping
  pub mapping_enabled : n.mapping.enabled ≡ true
  pub mapping_tenant : n.mapping.tenant_id ≡ ctx.source.tenant_id
  pub tag : CanonicalTag
  pub tag_found : find_by (λ t. t.id == n.canonical_tag_id) d.tags ≡ some tag
  pub unit_agrees :
      str_eq ctx.sample.engineering_unit
        (or_default n.mapping.engineering_unit_override tag.canonical_unit)
      ≡ true
  pub timestamp_parsed : env.parse_date ctx.sample.timestamp ≡ some n.timestamp
  pub not_future : n.timestamp ≤ ctx.now + ingestion_max_future_skew_ms
  pub not_late : ctx.now ≤ n.timestamp + ingestion_max_late_window_ms
  pub value_finite : env.is_finite (value_str ctx.sample.value) ≡ true
  pub value_parsed : env.decimal (value_str ctx.sample.value) ≡ some n.value

module _ (env : Env) (ctx : SampleContext) (d : Db) (em : List PendingRealtimeEmit) where
  -- One canonical row, of the source's tenant and the mapping's unit, with the parsed time and
  -- value; the reading announced first, and only the derived tables changed besides.
  pub record Stored (id : Uuid) (w : World) : Type 0 where
    pub normalized : Normalized
    pub reading_tenant : (new_reading ctx normalized id).tenant_id ≡ ctx.source.tenant_id
    pub reading_unit : (new_reading ctx normalized id).unit_id ≡ normalized.mapping.unit_id
    pub reading_tag : (new_reading ctx normalized id).canonical_tag_id ≡ normalized.canonical_tag_id
    pub reading_time : (new_reading ctx normalized id).timestamp ≡ normalized.timestamp
    pub reading_value : (new_reading ctx normalized id).value ≡ normalized.value
    pub admissible : Admissible env ctx d normalized
    pub one_reading : w.db ≡ record d {
      readings = new_reading ctx normalized id ∷ d.readings;
      live = w.db.live;
      events = w.db.events;
    }
    pub derived_emits : List PendingRealtimeEmit
    pub own_tenant : All (IsOwn ctx) derived_emits
    pub announced : w.emitted ≡ em ++ (accepted_emit ctx normalized id ∷ derived_emits)

  -- One quarantine row, nothing else changed and nothing announced.
  pub record Quarantined (id : Uuid) (reason : QuarantineReason) (w : World) : Type 0 where
    pub row : IngestionError
    pub one_error : w.db ≡ record d { errors = row ∷ d.errors }
    pub row_id : row.id ≡ id
    pub row_reason : row.reason ≡ reason
    pub row_sample : row.external_identifier ≡ ctx.sample.external_identifier
    pub silent : w.emitted ≡ em

  abbrev pub Described : Outcome → World → Type 0
  Described (accepted id) w = Stored id w
  Described duplicate w = Same d em w
  Described (conflict_quarantined id reason) w = Quarantined id reason w
  Described (rejected_quarantined id reason) w = Quarantined id reason w
  Described rejected_request w = ⊥

  abbrev pub Meets : M SampleResult → Type 0
  Meets m = Ends d em (λ r. Described r.outcome) m
