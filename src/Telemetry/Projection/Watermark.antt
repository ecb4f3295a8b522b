-- ===== src/Telemetry/Projection/Watermark.antt =====
-- The projection against the row that its key selects.
use rvf_malinois.Store.Frames.{query-cases, command-cases}
use rvf_malinois.Store.Effects.{
  counted, continue, M, throw, attempt, next_id, pure, command, World, Env, Out,
}
use rvf_malinois.Telemetry.Projection.{
  alone, skipped, update_many, created, updated, skipped_equal_timestamp, skipped_stale,
  skipped_quality, create_live, retry, create_step, others_commit, on_existing, find_step,
  update_step, new_live_row, project, LiveReadingProjectionResult, has_key, LiveReading, update_row,
  count_older, update_live, AcceptedTelemetryProjectionInput,
}
use rvf_malinois.Store.Effects.{◌>>=◌, ◌>>◌}
use rvf_malinois.Prelude.{
  Option-cases, ◌⊎◌, Option, ◌∙◌, arith, ◌<◌, ◌≡◌, ◌≤◌, if◌then◌else◌, suc, ◌==◌, find_by, ℕ,
  any_by, Bool, ok, err, [], ◌∷◌, List, inl, inr, false, refl, sym, subst, ap, some, none,
}

abbrev pub count_by {ℓ} : {A : Type ℓ} → (A → Bool) → List A → ℕ
count_by p [] = 0
count_by p (x ∷ xs) = if p x then suc (count_by p xs) else count_by p xs

three_way : (m n : ℕ) → (m < n) ⊎ ((m ≡ n) ⊎ (n < m))
three_way m n = omega arith

module _ (input : AcceptedTelemetryProjectionInput) where
  missing-count_older :
      (rows : List LiveReading) → find_by (has_key input) rows ≡ none → count_older input rows ≡ 0
  unfolding count_older
  missing-count_older [] e = refl
  missing-count_older (r ∷ rs) e = ground (arith, missing-count_older rs)

  missing-update_live :
      (rows : List LiveReading)
      → find_by (has_key input) rows ≡ none
      → update_live input rows ≡ rows
  unfolding update_live
  missing-update_live [] e = refl
  missing-update_live (r ∷ rs) e = ground (arith, missing-update_live rs)

  missing-any_by :
      (rows : List LiveReading)
      → find_by (has_key input) rows ≡ none
      → any_by (has_key input) rows ≡ false
  missing-any_by [] e = refl
  missing-any_by (r ∷ rs) e = ground (arith, missing-any_by rs)

  none-find_by :
      (rows : List LiveReading)
      → count_by (has_key input) rows ≡ 0
      → find_by (has_key input) rows ≡ none
  none-find_by [] e = refl
  none-find_by (r ∷ rs) e = ground (arith, none-find_by rs)

  -- A newer input rewrites the one row of its key.
  older-count_older :
      (rows : List LiveReading) (row : LiveReading)
      → count_by (has_key input) rows ≤ 1
      → find_by (has_key input) rows ≡ some row
      → row.timestamp < input.timestamp
      → count_older input rows ≡ 1
  unfolding count_older
  older-count_older [] row u e l = ground arith
  older-count_older (r ∷ rs) row u e l =
      ground (arith, older-count_older rs row, none-find_by rs, missing-count_older rs)

  older-update_live :
      (rows : List LiveReading) (row : LiveReading)
      → count_by (has_key input) rows ≤ 1
      → find_by (has_key input) rows ≡ some row
      → row.timestamp < input.timestamp
      → find_by (has_key input) (update_live input rows) ≡ some (update_row input row)
  unfolding update_live update_row
  older-update_live [] row u e l = ground arith
  older-update_live (r ∷ rs) row u e l = ground (arith, older-update_live rs row)

  -- Any other input leaves the table alone.
  fresh-count_older :
      (rows : List LiveReading) (row : LiveReading)
      → count_by (has_key input) rows ≤ 1
      → find_by (has_key input) rows ≡ some row
      → input.timestamp ≤ row.timestamp
      → count_older input rows ≡ 0
  unfolding count_older
  fresh-count_older [] row u e l = ground arith
  fresh-count_older (r ∷ rs) row u e l =
      ground (arith, fresh-count_older rs row, none-find_by rs, missing-count_older rs)

  fresh-update_live :
      (rows : List LiveReading) (row : LiveReading)
      → count_by (has_key input) rows ≤ 1
      → find_by (has_key input) rows ≡ some row
      → input.timestamp ≤ row.timestamp
      → update_live input rows ≡ rows
  unfolding update_live
  fresh-update_live [] row u e l = ground arith
  fresh-update_live (r ∷ rs) row u e l =
      ground (arith, fresh-update_live rs row, none-find_by rs, missing-update_live rs)

  -- What a result says of the table before and after; a throw leaves the table as it was.
  abbrev pub Projected : List LiveReading → LiveReadingProjectionResult → List LiveReading → Type 0
  Projected before (created id) after =
      (find_by (has_key input) before ≡ none) × (after ≡ new_live_row input id ∷ before)
  Projected before updated after =
      (row : LiveReading) × (find_by (has_key input) before ≡ some row)
      × (row.timestamp < input.timestamp)
      × (find_by (has_key input) after ≡ some (update_row input row))
  Projected before skipped_equal_timestamp after =
      (row : LiveReading) × (find_by (has_key input) before ≡ some row)
      × (row.timestamp ≡ input.timestamp)
      × (after ≡ before)
  Projected before skipped_stale after =
      (row : LiveReading) × (find_by (has_key input) before ≡ some row)
      × (input.timestamp < row.timestamp)
      × (after ≡ before)
  Projected before skipped_quality after = ⊥

  abbrev pub ProjectedOut : List LiveReading → Out LiveReadingProjectionResult → Type 0
  ProjectedOut before (ok r, w) = Projected before r w.db.live
  ProjectedOut before (err e, w) = w.db.live ≡ before

  abbrev after_update : Env → ℕ → M LiveReadingProjectionResult
  after_update env count = if count == 1 then pure updated else do
    others_commit (alone 0)
    existing ← find_step env input
    on_existing env alone input existing

  -- The update throws, or leaves its count and the rewritten table to the rest.
  project_lem :
      (env : Env) (w : World)
      → ((w' : World)
          → w'.db.live ≡ update_live input w.db.live
          → ProjectedOut w.db.live (after_update env (count_older input w.db.live) w'))
      → ProjectedOut w.db.live (project env alone input w)
  unfolding project update_step ◌>>=◌
  project_lem env w k = elim (command-cases env (update_many input) w) [
    | inl e ↦ subst (λ out. ProjectedOut w.db.live (continue out (after_update env))) (sym e) refl
    | inr e ↦
        subst (λ out. ProjectedOut w.db.live (continue out (after_update env))) (sym e) (k _ refl)
  ]

  -- The query for the existing row throws, or finds the first row of the key.
  after_update_lem :
      (env : Env) (before : List LiveReading) (w : World) (o : Option LiveReading)
      → w.db.live ≡ before
      → find_by (has_key input) before ≡ o
      → ((w' : World)
          → w'.db.live ≡ before
          → ProjectedOut before (on_existing env alone input o w'))
      → ProjectedOut before (after_update env 0 w)
  unfolding find_step others_commit ◌>>=◌
  after_update_lem env before w o s e k =
      elim (query-cases env (λ db. find_by (has_key input) db.live) w) [
        | inl q ↦
            subst (λ out. ProjectedOut before (continue out (on_existing env alone input))) (sym q)
              s
        | inr q ↦
            subst (λ out. ProjectedOut before (continue out (on_existing env alone input))) (sym q)
              (subst (λ x. ProjectedOut before (on_existing env alone input x (counted w)))
                (sym (ap (find_by (has_key input)) s ∙ e)) (k (counted w) s))
      ]

  create_lem :
      (env : Env) (before : List LiveReading) (w : World)
      → w.db.live ≡ before
      → find_by (has_key input) before ≡ none
      → ProjectedOut before (on_existing env alone input none w)
  unfolding on_existing others_commit create_step command next_id ◌>>=◌ pure attempt retry
      create_live throw
  create_lem env before w s e = ground (arith, missing-any_by before e)

  older-after_update :
      (env : Env) (before : List LiveReading) (w : World) (row : LiveReading)
      → w.db.live ≡ update_live input before
      → count_by (has_key input) before ≤ 1
      → find_by (has_key input) before ≡ some row
      → row.timestamp < input.timestamp
      → ProjectedOut before (after_update env 1 w)
  unfolding pure
  older-after_update env before w row s u e l =
      (row, e, l, ap (find_by (has_key input)) s ∙ older-update_live before row u e l)

  at_most :
      (row : LiveReading)
      → (row.timestamp ≡ input.timestamp) ⊎ (input.timestamp < row.timestamp)
      → input.timestamp ≤ row.timestamp
  at_most row l = omega arith

  equal-skipped :
      (row : LiveReading)
      → row.timestamp ≡ input.timestamp
      → skipped input row ≡ skipped_equal_timestamp
  equal-skipped row e = ground arith

  newer-skipped :
      (row : LiveReading) → input.timestamp < row.timestamp → skipped input row ≡ skipped_stale
  newer-skipped row l = ground arith

  skipped_lem :
      (env : Env) (before : List LiveReading) (row : LiveReading) (w : World)
      → w.db.live ≡ before
      → find_by (has_key input) before ≡ some row
      → (row.timestamp ≡ input.timestamp) ⊎ (input.timestamp < row.timestamp)
      → ProjectedOut before (on_existing env alone input (some row) w)
  unfolding on_existing pure
  skipped_lem env before row w s e (inl l) =
      subst (λ r. Projected before r w.db.live) (sym (equal-skipped row l)) (row, e, l, s)
  skipped_lem env before row w s e (inr l) =
      subst (λ r. Projected before r w.db.live) (sym (newer-skipped row l)) (row, e, l, s)

  missing_lem :
      (env : Env) (w : World)
      → find_by (has_key input) w.db.live ≡ none
      → ProjectedOut w.db.live (project env alone input w)
  missing_lem env w e = project_lem env w (λ w' s.
      subst (λ c. ProjectedOut w.db.live (after_update env c w'))
        (sym (missing-count_older w.db.live e))
        (after_update_lem env w.db.live w' none (s ∙ missing-update_live w.db.live e) e
          (λ x t. create_lem env w.db.live x t e)))

  present_lem :
      (env : Env) (w : World) (row : LiveReading)
      → count_by (has_key input) w.db.live ≤ 1
      → find_by (has_key input) w.db.live ≡ some row
      → (row.timestamp < input.timestamp)
        ⊎ ((row.timestamp ≡ input.timestamp) ⊎ (input.timestamp < row.timestamp))
      → ProjectedOut w.db.live (project env alone input w)
  present_lem env w row u e (inl l) = project_lem env w (λ w' s.
      subst (λ c. ProjectedOut w.db.live (after_update env c w'))
        (sym (older-count_older w.db.live row u e l))
        (older-after_update env w.db.live w' row s u e l))
  present_lem env w row u e (inr l) =
      let fresh = at_most row l in
      project_lem env w (λ w' s.
        subst (λ c. ProjectedOut w.db.live (after_update env c w'))
          (sym (fresh-count_older w.db.live row u e fresh))
          (after_update_lem env w.db.live w' (some row)
            (s ∙ fresh-update_live w.db.live row u e fresh) e
            (λ x t. skipped_lem env w.db.live row x t e l)))

  -- If nothing else commits between its statements: of a table with at most one row of the input's key,
  -- the projection creates the row exactly where there is none, rewrites it exactly where the row is
  -- older, and else leaves the table alone and tells an equal timestamp from a newer one; if it throws,
  -- it has changed no row.
  pub alone-Projected :
      (env : Env) (w : World)
      → count_by (has_key input) w.db.live ≤ 1
      → ProjectedOut w.db.live (project env alone input w)
  alone-Projected env w u = elim (Option-cases (find_by (has_key input) w.db.live)) [
    | inl e ↦ missing_lem env w e
    | inr (row, e) ↦ present_lem env w row u e (three_way row.timestamp input.timestamp)
  ]
