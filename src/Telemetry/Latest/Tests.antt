-- ===== src/Telemetry/Latest/Tests.antt =====
-- The latest values after a projection into a small table.
use rvf_malinois.Store.Rows.{good, LiveReading}
use rvf_malinois.Store.Effects.{Out, ◌>>=◌, pure, attempt, next_id, query, command, Env, World}
use rvf_malinois.WellTests.Service.{CallerContext}
use rvf_malinois.Telemetry.Resolver.{resolve, CanonicalTagRow, not_found, resolve_tag}
use rvf_malinois.Telemetry.Projection.{
  is_older, LiveReadingProjectionResult, skipped_stale, Race, alone, create_live, count_older,
  update_live, others_commit, create_step, AcceptedTelemetryProjectionInput, project, created,
  update_step, find_step, on_existing, new_live_row,
}
use rvf_malinois.Telemetry.Latest.{list_values, LatestQuery, LatestResponse, query_latest}
use rvf_malinois.Telemetry.Latest.Fresh.{Shows, project-query_latest}
use rvf_malinois.Prelude.{
  ◌==◌, if◌then◌else◌, any_by, Bool, true, err, refl, ◌+◌, [], none, false, ◌∷◌, ok, some, List,
  Uuid, Option, ◌≡◌,
}

abbrev tag_of : Uuid → CanonicalTagRow
tag_of id = record {
  id = id;
  name = "p_inlet";
  display_name = "Inlet pressure";
  canonical_unit = "psi";
  category = "pressure";
  precision = 2;
}

abbrev env : Env
env = record {
  fails = λ n. false;
  uuid = λ n. 100 + n;
  by_severity = λ rules. rules;
  parse_date = λ text. some 1000;
  is_finite = λ text. true;
  decimal = λ text. some text;
  greater_than = λ a b. false;
  less_than = λ a b. false;
}

abbrev input : AcceptedTelemetryProjectionInput
input = record {
  telemetry_reading_id = 50;
  tenant_id = 9;
  unit_id = 3;
  sensor_id = 4;
  canonical_tag_id = 6;
  value = "99";
  engineering_unit = "psi";
  quality = good;
  timestamp = 1000;
  source = "plc";
  ingestion_timestamp = 2000;
}

-- The row of another sensor.
abbrev other : LiveReading
other = record (new_live_row input 1) { sensor_id = 5; timestamp = 1500 }

abbrev world : World
world = record {
  db = record {
    sources = [];
    mappings = [];
    sensors = [];
    bindings = [];
    tags = [];
    rules = [];
    readings = [];
    live = other ∷ [];
    events = [];
    errors = [];
  };
  calls = 0;
  emitted = [];
}

abbrev caller : CallerContext
caller = record { tenant_id = some 9 }

abbrev asked : LatestQuery
asked = record { unit_id = 3; canonical_tag_id = some 6; canonical_tag_name = none }

abbrev tags : List CanonicalTagRow
tags = tag_of 6 ∷ []

-- The table once the reading is projected.
abbrev projected : List LiveReading
projected = new_live_row input 102 ∷ (other ∷ [])

abbrev after : World
after = record world { db = record world.db { live = projected }; calls = 3 }

project_runs : project env alone input world ≡ (ok (created 102), after)
unfolding project update_step find_step on_existing create_step command query next_id others_commit
    attempt pure ◌>>=◌ update_live count_older create_live new_live_row
project_runs = refl

tag_found : resolve_tag tags (some 6) none ≡ ok (some 6)
unfolding resolve_tag resolve
tag_found = refl

-- A tag that does not exist is refused.
unknown_refused : query_latest tag_of caller asked [] projected ≡ err not_found
unfolding query_latest resolve_tag resolve
unknown_refused = refl

project-query_latest_example :
    (a : LatestResponse) × (query_latest tag_of caller asked tags after.db.live ≡ ok a)
    × Shows tag_of input (created 102) a.values
unfolding new_live_row
project-query_latest_example =
    project-query_latest tag_of input caller asked tags (some 6) env alone world after (created 102)
      project_runs ((λ h. refl), ((λ h. refl), tt)) refl refl tag_found refl

-- Another transaction that commits an older row behind the update has the reading skipped as stale.
abbrev overtaken : Race
overtaken n rows =
    if n == 0 then record (new_live_row input 1) { timestamp = 500; value = "7" } ∷ rows else rows

abbrev kept_older : Out LiveReadingProjectionResult → Option (LiveReadingProjectionResult × Bool)
kept_older (ok r, w) = some (r, any_by (is_older input) w.db.live)
kept_older (err e, w) = none

overtaken_runs : kept_older (project env overtaken input world) ≡ some (skipped_stale, true)
unfolding project update_step find_step on_existing command query others_commit pure ◌>>=◌
    update_live count_older new_live_row
overtaken_runs = refl

abbrev answered : LatestResponse
answered = list_values tag_of caller asked (some 6) projected
