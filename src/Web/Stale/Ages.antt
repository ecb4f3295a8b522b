-- ===== src/Web/Stale/Ages.antt =====
-- How the status of a signal follows its age.
use rvf_malinois.Prelude.{Option, none, some, String, Time, ℕ, ◌-◌, ◌≤◌, ◌<◌, ◌≡◌, ◌↔◌, arith}
use rvf_malinois.Web.Models.{
  Platform, JobId, CanonicalTag, StaleTimings, StaleTimingsEntry, TelemetryStatus, live, delayed,
  stale, offline,
}
use rvf_malinois.Web.Stale.{age_status, stale_of_parsed, compute_stale_state, resolve_timings}

-- The statuses from the best to the worst.
abbrev pub worse : TelemetryStatus → ℕ
worse live = 0
worse delayed = 1
worse stale = 2
worse offline = 3

age_status-le :
    (a b : ℕ) (t : StaleTimings) → a ≤ b → worse (age_status a t) ≤ worse (age_status b t)
unfolding age_status
age_status-le a b t h = ground arith

age_status-live :
    (a : ℕ) (t : StaleTimings)
    → (age_status a t ≡ live)
      ↔ ((a < t.offline_after_sec) × (a < t.stale_after_sec) × (a < t.delayed_after_sec))
unfolding age_status
age_status-live a t = ground arith

module _ (js : Platform) (job_id : JobId) (tag : CanonicalTag)
    (overrides : CanonicalTag → Option StaleTimingsEntry) (defaults : StaleTimings) where
  stale_of_parsed-le :
      (ts : String) (parsed : Option Time) (now later : Time)
      → now ≤ later
      → worse
          (stale_of_parsed js job_id tag ts now
            (resolve_timings tag overrides defaults)
            parsed).status
        ≤ worse
            (stale_of_parsed js job_id tag ts later
              (resolve_timings tag overrides defaults)
              parsed).status
  unfolding stale_of_parsed
  stale_of_parsed-le ts none now later h = omega arith
  stale_of_parsed-le ts (some ms) now later h =
      age_status-le (now - ms) (later - ms) (resolve_timings tag overrides defaults) (omega arith)

  -- As time passes and no newer reading comes, the status of a signal never gets better, whatever
  -- the boundaries are, in order or not.
  pub compute_stale_state-le :
      (last_ts : Option String) (now later : Time)
      → now ≤ later
      → worse (compute_stale_state js job_id tag last_ts now overrides defaults).status
        ≤ worse (compute_stale_state js job_id tag last_ts later overrides defaults).status
  unfolding compute_stale_state
  compute_stale_state-le none now later h = omega arith
  compute_stale_state-le (some ts) now later h =
      stale_of_parsed-le ts (js.parse_date ts) now later h

  abbrev pub YoungAt : Option Time → Time → Type 0
  YoungAt none now = ⊥
  YoungAt (some ms) now =
      let t = resolve_timings tag overrides defaults in
      (now - ms < t.offline_after_sec)
      × (now - ms < t.stale_after_sec)
      × (now - ms < t.delayed_after_sec)

  -- A reading at `ts` is younger than each boundary of the tag.
  abbrev pub Young : Option String → Time → Type 0
  Young none now = ⊥
  Young (some ts) now = YoungAt (js.parse_date ts) now

  stale_of_parsed-live :
      (ts : String) (parsed : Option Time) (now : Time)
      → ((stale_of_parsed js job_id tag ts now
            (resolve_timings tag overrides defaults)
            parsed).status
          ≡ live)
        ↔ YoungAt parsed now
  unfolding stale_of_parsed
  stale_of_parsed-live ts none now = ground arith
  stale_of_parsed-live ts (some ms) now =
      age_status-live (now - ms) (resolve_timings tag overrides defaults)

  -- A signal is live exactly when there is a last reading, its timestamp can be read, and its age
  -- is below all three boundaries of the tag, those of the snapshot where it has them.
  pub compute_stale_state-live :
      (last_ts : Option String) (now : Time)
      → ((compute_stale_state js job_id tag last_ts now overrides defaults).status ≡ live)
        ↔ Young last_ts now
  unfolding compute_stale_state
  compute_stale_state-live none now = ground arith
  compute_stale_state-live (some ts) now = stale_of_parsed-live ts (js.parse_date ts) now
