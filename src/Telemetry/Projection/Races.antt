-- ===== src/Telemetry/Projection/Races.antt =====
-- The projection while other transactions commit between its statements.
use rvf_malinois.Store.Frames.{Keeps, keeps_rules}
use rvf_malinois.Store.Effects.{
  unique_violation, unexpected, Fault, World, Env, pure, command, query, next_id, ◌>>=◌,
}
use rvf_malinois.Telemetry.Projection.{
  AcceptedTelemetryProjectionInput, LiveReading, Race, alone, create_live, retry, create_step,
  others_commit, on_existing, find_step, update_step, project, has_key, update_row, update_live,
}
use rvf_malinois.Telemetry.Projection.Watermark.{ProjectedOut, alone-Projected, count_by}
use rvf_malinois.Prelude.{
  Bool-cases, ◌||◌, not, [], none, some, ◌∷◌, refl, inl, inr, leb, ◌&&◌, any_by, true, Option, Bool,
  arith, ◌≡◌, ℕ, List, Time, ◌≤◌,
}

-- The table has a row of the input's key that is dated at `t` or later.
abbrev pub holds : AcceptedTelemetryProjectionInput → Time → List LiveReading → Bool
holds key t rows = any_by (λ r. has_key key r && leb t r.timestamp) rows

update_live-holds :
    (input key : AcceptedTelemetryProjectionInput) (t : Time) (rows : List LiveReading)
    → holds key t rows ≡ true
    → holds key t (update_live input rows) ≡ true
unfolding update_live update_row
update_live-holds input key t [] h = h
update_live-holds input key t (r ∷ rs) h = ground (arith, update_live-holds input key t rs)

module _ (env : Env) (race : Race) (input key : AcceptedTelemetryProjectionInput) (t : Time)
    (monotone : (n : ℕ) (rows : List LiveReading)
      → holds key t rows ≡ true
      → holds key t (race n rows) ≡ true) where
  abbrev Holds : World → Type 0
  Holds w = holds key t w.db.live ≡ true

  update_step-Holds : Keeps Holds (update_step env input)
  unfolding update_step command
  update_step-Holds = record {
    at = λ w h. ground (arith, update_live-holds input key t w.db.live h);
  }

  others_commit-Holds : (n : ℕ) → Keeps Holds (others_commit (race n))
  unfolding others_commit
  others_commit-Holds n = record { at = λ w h. monotone n w.db.live h }

  find_step-Holds : Keeps Holds (find_step env input)
  unfolding find_step query
  find_step-Holds = record { at = λ w h. ground arith }

  create_step-Holds : Keeps Holds (create_step env input)
  unfolding create_step command next_id ◌>>=◌ pure create_live
  create_step-Holds = record { at = λ w h. ground arith }

  retry-Holds : (e : Fault) → Keeps Holds (retry env race input e)
  unfolding retry
  retry-Holds unexpected = search keeps_rules
  retry-Holds unique_violation =
      search (keeps_rules, others_commit-Holds, update_step-Holds, find_step-Holds) depth 8

  on_existing-Holds : (o : Option LiveReading) → Keeps Holds (on_existing env race input o)
  unfolding on_existing
  on_existing-Holds none =
      search (keeps_rules, others_commit-Holds, create_step-Holds, retry-Holds) depth 8
  on_existing-Holds (some row) = search keeps_rules

  project-Holds : Keeps Holds (project env race input)
  unfolding project
  project-Holds =
      search
        (keeps_rules, others_commit-Holds, update_step-Holds, find_step-Holds, on_existing-Holds)
        depth 8

-- If nothing else commits between its statements: of a table with at most one row of the input's key,
-- the projection creates the row exactly where there is none, rewrites it exactly where the row is
-- older, and else leaves the table alone and tells an equal timestamp from a newer one; if it throws,
-- it has changed no row. And for any slot and instant: whatever else commits between its statements, as
-- long as that keeps a row of the slot that is dated at the instant or later, so does the projection
-- with it, whether or not it throws.
pub project-Projected :
    (input key : AcceptedTelemetryProjectionInput) (t : Time) (env : Env) (race : Race) (w : World)
    → count_by (has_key input) w.db.live ≤ 1
    → ((n : ℕ) (rows : List LiveReading)
        → holds key t rows ≡ true
        → holds key t (race n rows) ≡ true)
    → ProjectedOut input w.db.live (project env alone input w)
      × (not (holds key t w.db.live) || holds key t (project env race input w).1.db.live ≡ true)
project-Projected input key t env race w u monotone =
    let kept = (project-Holds env race input key t monotone).at w in
    (
      alone-Projected input env w u,
      elim (Bool-cases (holds key t w.db.live)) [
        | inl e ↦ rw (kept e) (ground arith)
        | inr e ↦ rw e refl
      ],
    )
