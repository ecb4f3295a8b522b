-- ===== src/Web/Stale.antt =====
-- apps/web/lib/quality/stale.ts and apps/web/lib/quality/classifier.ts
pub mod Ages
use rvf_malinois.Web.Models.{
  Platform, JobId, CanonicalTag, StaleTimings, StaleTimingsEntry, StaleState, TelemetryStatus, live,
  delayed, stale, offline, CommissioningSnapshot, DataQuality, good, estimated, uncertain, bad,
}
use rvf_malinois.Prelude.{
  Option, none, some, String, Time, Bool, true, false, ℕ, leb, if◌then◌else◌, ◌-◌,
}

abbrev pub default_stale_timings : StaleTimings
default_stale_timings = record {
  delayed_after_sec = 10000;
  stale_after_sec = 30000;
  offline_after_sec = 120000;
}

-- `a ?? b`
abbrev pub or_default {ℓ} : {A : Type ℓ} → Option A → A → A
or_default none b = b
or_default (some a) b = a

abbrev pub override_with : Option StaleTimingsEntry → StaleTimings → StaleTimings
override_with none defaults = defaults
override_with (some ov) defaults = record {
  delayed_after_sec = or_default ov.delayed_after_sec defaults.delayed_after_sec;
  stale_after_sec = or_default ov.stale_after_sec defaults.stale_after_sec;
  offline_after_sec = or_default ov.offline_after_sec defaults.offline_after_sec;
}

unfoldable pub resolve_timings :
    CanonicalTag → (CanonicalTag → Option StaleTimingsEntry) → StaleTimings → StaleTimings
resolve_timings tag overrides defaults = override_with (overrides tag) defaults

-- `age` in thousandths of a second
unfoldable pub age_status : ℕ → StaleTimings → TelemetryStatus
age_status age timings =
    if leb timings.offline_after_sec age
    then offline
    else if leb timings.stale_after_sec age
    then stale
    else if leb timings.delayed_after_sec age
    then delayed
    else live

module _ (js : Platform) where
  unfoldable pub stale_of_parsed :
      JobId → CanonicalTag → String → Time → StaleTimings → Option Time → StaleState
  unfolding age_status
  stale_of_parsed job_id tag last_ts now timings none = record {
    job_id = job_id;
    tag = tag;
    status = offline;
    last_ts = some last_ts;
    age_sec = none;
  }
  stale_of_parsed job_id tag last_ts now timings (some last_ms) = record {
    job_id = job_id;
    tag = tag;
    status = age_status (now - last_ms) timings;
    last_ts = some last_ts;
    age_sec = some (now - last_ms);
  }

  unfoldable pub compute_stale_state :
      JobId
      → CanonicalTag
      → Option String
      → Time
      → (CanonicalTag → Option StaleTimingsEntry)
      → StaleTimings
      → StaleState
  unfolding resolve_timings stale_of_parsed
  compute_stale_state job_id tag none now overrides defaults = record {
    job_id = job_id;
    tag = tag;
    status = offline;
    last_ts = none;
    age_sec = none;
  }
  compute_stale_state job_id tag (some last_ts) now overrides defaults =
      stale_of_parsed job_id tag last_ts now (resolve_timings tag overrides defaults)
        (js.parse_date last_ts)

  unfoldable pub compute_stale_from_snapshot :
      JobId → CanonicalTag → Option String → Time → CommissioningSnapshot → StaleState
  unfolding compute_stale_state
  compute_stale_from_snapshot job_id tag last_ts now snapshot =
      compute_stale_state job_id tag last_ts now snapshot.stale_timings default_stale_timings

pub data QualityBand : Type 0 where
  usable derated unusable : QualityBand

unfoldable pub classify_quality : DataQuality → QualityBand
classify_quality good = usable
classify_quality estimated = derated
classify_quality uncertain = derated
classify_quality bad = unusable
