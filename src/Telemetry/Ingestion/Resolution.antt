-- ===== src/Telemetry/Ingestion/Resolution.antt =====
-- `resolveSensorAndTag` of telemetry-ingestion.service.ts.
use rvf_malinois.Store.Rows.{
  mapping_engine_failure, IntegrationMapping, unresolved_tag, unresolved_sensor, QuarantineReason,
  SensorTagBinding, Sensor,
}
use rvf_malinois.Store.Effects.{pure, M, query, Env, ◌>>=◌}
use rvf_malinois.Prelude.{
  ◌==◌, Uuid, Bool, ◌&&◌, not, Option, none, some, List, [], ◌∷◌, filter_by, find_by, any_by, take,
  is_some,
}

pub data Resolution : Type 0 where
  resolved : Uuid → Uuid → Resolution
  failed : Option Uuid → Option Uuid → QuarantineReason → Resolution

abbrev pub is_current_binding : SensorTagBinding → Bool
is_current_binding b = not (is_some b.effective_to)

-- A sensor of the unit with an active binding to the tag.
abbrev pub is_candidate : List SensorTagBinding → Uuid → Uuid → Sensor → Bool
is_candidate bindings unit tag s =
    s.unit_id == unit
    && any_by (λ b. b.sensor_id == s.id && b.canonical_tag_id == tag && is_current_binding b)
        bindings

abbrev pub pick_candidate : Uuid → List Sensor → Resolution
pick_candidate tag [] = failed none (some tag) unresolved_sensor
pick_candidate tag (s ∷ []) = resolved s.id tag
pick_candidate tag (s ∷ t ∷ rest) = failed none (some tag) mapping_engine_failure

abbrev pub pick_binding : Uuid → Option SensorTagBinding → Resolution
pick_binding sensor none = failed (some sensor) none unresolved_tag
pick_binding sensor (some b) = resolved sensor b.canonical_tag_id

module _ (env : Env) where
  unfoldable pub resolve_by : Uuid → Option Uuid → Option Uuid → M Resolution
  unfolding query
  resolve_by unit (some sensor) (some tag) = pure (resolved sensor tag)
  resolve_by unit none (some tag) = do
    candidates ← query env (λ db. take 2 (filter_by (is_candidate db.bindings unit tag) db.sensors))
    pure (pick_candidate tag candidates)
  resolve_by unit (some sensor) none = do
    binding ←
        query env (λ db. find_by (λ b. b.sensor_id == sensor && is_current_binding b) db.bindings)
    pure (pick_binding sensor binding)
  resolve_by unit none none = pure (failed none none unresolved_sensor)

  unfoldable pub resolve_sensor_and_tag : IntegrationMapping → M Resolution
  unfolding resolve_by
  resolve_sensor_and_tag mapping =
      resolve_by mapping.unit_id mapping.sensor_id mapping.canonical_tag_id
