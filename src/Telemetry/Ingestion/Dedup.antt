-- ===== src/Telemetry/Ingestion/Dedup.antt =====
-- The unique indexes of the readings and the look-up after a violation.
use rvf_malinois.Telemetry.Ingestion.Contracts.{duplicate}
use rvf_malinois.Store.Effects.{pure, Env}
use rvf_malinois.Telemetry.Ingestion.Readings.{clashes, is_existing, same_dedup_key}
use rvf_malinois.Store.Rows.{same_quality, Quality, TelemetryReading}
use rvf_malinois.Telemetry.Ingestion.Storing.{
  quarantine_conflict, result_at, sample_text, on_duplicate_of, identical, new_reading, Normalized,
  SampleContext,
}
use rvf_malinois.Store.Rows.{good, uncertain, bad}
use rvf_malinois.Prelude.{
  if◌then◌else◌, str_eq_iff, str_eq, ◌&&◌, String, Bool, arith, ◌≡◌, ℕ, Option, Uuid, refl, some,
  none, true, false,
}

none-falses : (p q r : Bool) → (p && q && r && false) ≡ false
none-falses p q r = ground arith

module _ (ctx : SampleContext) (n : Normalized) (id : Uuid) where
  same_key_lem :
      (sent stored : Option ℕ) (r : TelemetryReading)
      → r.sequence ≡ stored
      → same_dedup_key sent stored (new_reading ctx n id) r
        ≡ is_existing ctx.source.id n.sensor_id n.canonical_tag_id n.timestamp sent r
  unfolding new_reading
  same_key_lem (some a) (some b) r e = ground (arith, e)
  same_key_lem (some a) none r e = ground (arith, e)
  same_key_lem none (some b) r e = ground (arith, e)
  same_key_lem none none r e = ground (arith, e)

  -- The rows that stop the insert of a sample's reading are the rows that the look-up of
  -- `classifyDedup` selects.
  pub clashes-is_existing :
      (r : TelemetryReading)
      → clashes (new_reading ctx n id) r
        ≡ is_existing ctx.source.id n.sensor_id n.canonical_tag_id n.timestamp ctx.sample.sequence r
  unfolding new_reading
  clashes-is_existing r = same_key_lem ctx.sample.sequence r.sequence r refl

  same_text : (s : String) → str_eq s s ≡ true
  same_text s = (str_eq_iff s s).1 refl

  same_quality_refl : (q : Quality) → same_quality q q ≡ true
  same_quality_refl good = refl
  same_quality_refl uncertain = refl
  same_quality_refl bad = refl

  identical_lem : identical ctx n (new_reading ctx n id) ≡ str_eq n.value (sample_text ctx n)
  unfolding identical new_reading
  identical_lem = ground (
    arith,
    same_text ctx.sample.engineering_unit,
    same_quality_refl ctx.sample.quality,
    same_text ctx.source.kind,
  )

-- A sample that is sent again, and meets the row that it was stored as, is a duplicate if the text
-- of the stored decimal is the text that was sent, and a conflict else.
pub on_duplicate_of-new_reading :
    (env : Env) (ctx : SampleContext) (n : Normalized) (id : Uuid)
    → on_duplicate_of env ctx n (some (new_reading ctx n id)) ≡ (
        if str_eq n.value (sample_text ctx n)
        then pure (result_at ctx.sample_index duplicate)
        else quarantine_conflict env ctx n)
unfolding on_duplicate_of
on_duplicate_of-new_reading env ctx n id = rw (identical_lem ctx n id)
