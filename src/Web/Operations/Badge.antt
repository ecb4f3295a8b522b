-- ===== src/Web/Operations/Badge.antt =====
-- The badge of a unit against what its tiles show.
use rvf_malinois.Web.Models.{AlarmState}
use rvf_malinois.Web.Evaluator.{higher, rank}
use rvf_malinois.Web.Operations.{
  UnitBadgeStatus, TagViewState, UnitBadgeRollup, Rollup, is_process_alarm, is_disabled,
  is_reporting, roll_up_tag, roll_up_each, badge_of, considered, roll_up_unit_status, no_tags,
}
use rvf_malinois.Prelude.{
  ◌+◌, ◌≡◌, ◌==◌, ltb, String, Bool, true, false, not, ◌&&◌, ◌||◌, if◌then◌else◌, Option, none,
  some, List, [], ◌∷◌, lookup, any_by, count_by, arith,
}

-- What a tile shows: an alarm band, live data, or that it has none.
abbrev pub shows_alarm : Option TagViewState → Bool
shows_alarm none = false
shows_alarm (some v) = is_process_alarm v.alarm

abbrev pub shows_live : Option TagViewState → Bool
shows_live none = false
shows_live (some v) = not (is_disabled v.alarm) && is_reporting v

abbrev pub shows_nothing : Option TagViewState → Bool
shows_nothing none = true
shows_nothing (some v) = not (is_disabled v.alarm) && not (is_reporting v)

higher-is_process_alarm :
    (a b : AlarmState) → is_process_alarm (higher a b) ≡ (is_process_alarm a || is_process_alarm b)
unfolding higher rank
higher-is_process_alarm a b = ground arith

-- One tile adds to one of the numbers at most, and keeps the worst alarm.
record Adds (v : Option TagViewState) (r r' : Rollup) : Type 0 where
  alarms : is_process_alarm r'.worst ≡ (is_process_alarm r.worst || shows_alarm v)
  lives : r'.live_count ≡ r.live_count + (if shows_live v then 1 else 0)
  stales : r'.stale_count ≡ r.stale_count + (if shows_nothing v then 1 else 0)
  enableds :
      r'.enabled_count + r.live_count + r.stale_count
      ≡ r.enabled_count + r'.live_count + r'.stale_count

roll_up_tag-Adds : (v : Option TagViewState) (r : Rollup) → Adds v r (roll_up_tag v r)
unfolding roll_up_tag
roll_up_tag-Adds none r = ground arith
roll_up_tag-Adds (some v) r = ground (arith, higher-is_process_alarm r.worst v.alarm)

module _ (by_tag : List (String × TagViewState)) where
  record AddsAll (ks : List String) (r r' : Rollup) : Type 0 where
    alarms :
        is_process_alarm r'.worst
        ≡ (is_process_alarm r.worst || any_by (λ k. shows_alarm (lookup k by_tag)) ks)
    lives : r'.live_count ≡ r.live_count + count_by (λ k. shows_live (lookup k by_tag)) ks
    stales : r'.stale_count ≡ r.stale_count + count_by (λ k. shows_nothing (lookup k by_tag)) ks
    enableds :
        r'.enabled_count + r.live_count + r.stale_count
        ≡ r.enabled_count + r'.live_count + r'.stale_count

  roll_up_each-AddsAll : (ks : List String) (r : Rollup) → AddsAll ks r (roll_up_each ks by_tag r)
  unfolding roll_up_each
  roll_up_each-AddsAll [] r = ground arith
  roll_up_each-AddsAll (k ∷ ks) r =
      let one = roll_up_tag-Adds (lookup k by_tag) r in
      let rest = roll_up_each-AddsAll ks (roll_up_tag (lookup k by_tag) r) in ground arith

-- The badge that the tiles `ks` ask for.
abbrev pub badge_for : List (String × TagViewState) → List String → UnitBadgeStatus
badge_for by_tag ks =
    if any_by (λ k. shows_alarm (lookup k by_tag)) ks
    then UnitBadgeStatus.alarm
    else if count_by (λ k. shows_live (lookup k by_tag)) ks == 0
    then UnitBadgeStatus.offline
    else if ltb 0 (count_by (λ k. shows_nothing (lookup k by_tag)) ks)
    then UnitBadgeStatus.degraded
    else UnitBadgeStatus.testing

-- The numbers of a rollup.
pub record Rolls (by_tag : List (String × TagViewState)) (ks : List String) (r : UnitBadgeRollup)
    : Type 0 where
  pub badge : r.status ≡ badge_for by_tag ks
  pub lives : r.live_count ≡ count_by (λ k. shows_live (lookup k by_tag)) ks
  pub stales : r.stale_count ≡ count_by (λ k. shows_nothing (lookup k by_tag)) ks
  pub enableds : r.enabled_count ≡ r.live_count + r.stale_count

-- The badge is ALARM exactly if a considered tile shows an alarm band; else OFFLINE if none shows live
-- data, DEGRADED if one shows nothing although it is not disabled, and TESTING otherwise. The counts
-- are those of the tiles that show live data and of those that show nothing, and their sum.
pub roll_up_unit_status-Rolls :
    (by_tag : List (String × TagViewState)) (tags : Option (List String))
    → Rolls by_tag (considered tags by_tag) (roll_up_unit_status by_tag tags)
unfolding roll_up_unit_status badge_of
roll_up_unit_status-Rolls by_tag tags =
    let all = roll_up_each-AddsAll by_tag (considered tags by_tag) no_tags in
    record {
      badge = ground arith;
      lives = ground arith;
      stales = ground arith;
      enableds = ground arith;
    }
