-- ===== src/Telemetry/Projection/Leaves.antt =====
-- The row that the projection leaves behind, whatever other transactions commit between its statements.
use rvf_malinois.Store.Frames.{query-cases, command-cases}
use rvf_malinois.Store.Effects.{
  settle, unique_violation, unexpected, continue, recover, counted, M, Fault, Out, World, Env, pure,
  throw, attempt, next_id, ◌>>=◌, ◌>>◌,
}
use rvf_malinois.Telemetry.Projection.{
  is_older, AcceptedTelemetryProjectionInput, LiveReading, LiveReadingProjectionResult, Race,
  skipped, skipped_after, update_many, created, updated, skipped_equal_timestamp, skipped_stale,
  skipped_quality, create_live, retry, create_step, others_commit, on_existing, find_step,
  update_step, new_live_row, project, has_key, update_row, count_older, update_live,
}
use rvf_malinois.Prelude.{
  Uuid, any_by, find_by, Option, ℕ, if◌then◌else◌, sym, subst, find_by-some, there, here, ◌==◌,
  Bool-cases, arith, true, err, ◌≤◌, ok, ◌≡◌, In, List, [], none, some, ◌∷◌, refl, inl, inr,
}

module _ (input : AcceptedTelemetryProjectionInput) where
  -- The row carries the reading that was projected.
  abbrev pub CarriesReading : LiveReading → Type 0
  CarriesReading row =
      (row.timestamp ≡ input.timestamp)
      × (row.value ≡ input.value)
      × (row.latest_telemetry_reading_id ≡ input.telemetry_reading_id)

  -- What a result promises of a row of the key in the table: nothing if the reading was found stale.
  abbrev pub Left : LiveReadingProjectionResult → World → Type 0
  Left (created id) w =
      (row : LiveReading) × In row w.db.live × (has_key input row ≡ true) × CarriesReading row
  Left updated w =
      (row : LiveReading) × In row w.db.live × (has_key input row ≡ true) × CarriesReading row
  Left skipped_equal_timestamp w =
      (row : LiveReading) × In row w.db.live
      × (has_key input row ≡ true)
      × (row.timestamp ≡ input.timestamp)
  Left skipped_stale w = Unit
  Left skipped_quality w = Unit

  abbrev pub LeftOut : Out LiveReadingProjectionResult → Type 0
  LeftOut (ok r, w) = Left r w
  LeftOut (err e, w) = Unit

  -- A row that was rewritten carries the reading.
  rewritten :
      (rows : List LiveReading)
      → 1 ≤ count_older input rows
      → (row : LiveReading) × In row (update_live input rows)
        × (has_key input row ≡ true)
        × CarriesReading row
  unfolding count_older update_live update_row
  rewritten [] h = absurd (omega arith)
  rewritten (r ∷ rs) h = elim (Bool-cases (is_older input r)) [
    | inl e ↦ rw e (update_row input r, here, ground arith, (refl, refl, refl))
    | inr e ↦ let (row, i, k, c) = rewritten rs (rw e at h) in (row, rw e (there i), k, c)
  ]

  find-Left :
      (row : LiveReading) (w : World)
      → In row w.db.live
      → has_key input row ≡ true
      → Left (skipped input row) w
  find-Left row w i k = elim (Bool-cases (row.timestamp == input.timestamp)) [
    | inl e ↦ rw e (row, i, k, ground arith)
    | inr e ↦ rw e tt
  ]

  -- A count of one comes with the rewritten row; what follows another count is given.
  counted_lem :
      (rest : M LiveReadingProjectionResult) (n : ℕ) (w : World)
      → (1 ≤ n → Left updated w)
      → ((w' : World) → LeftOut (rest w'))
      → LeftOut ((if n == 1 then pure updated else rest) w)
  unfolding pure
  counted_lem rest n w h k = elim (Bool-cases (n == 1)) [
    | inl e ↦ rw e (h (ground arith))
    | inr e ↦ rw e (k w)
  ]

  after_find :
      (next : Option LiveReading → M LiveReadingProjectionResult) (env : Env) (w : World)
      → ((o : Option LiveReading) (w' : World)
          → find_by (has_key input) w'.db.live ≡ o
          → LeftOut (next o w'))
      → LeftOut ((find_step env input >>= next) w)
  unfolding find_step ◌>>=◌
  after_find next env w k = elim (query-cases env (λ db. find_by (has_key input) db.live) w) [
    | inl q ↦ subst (λ out. LeftOut (continue out next)) (sym q) tt
    | inr q ↦ subst (λ out. LeftOut (continue out next)) (sym q) (k _ (counted w) refl)
  ]

  update_lem :
      (env : Env) (rest : M LiveReadingProjectionResult) (w : World)
      → ((w' : World) → LeftOut (rest w'))
      → LeftOut ((update_step env input >>= λ n. if n == 1 then pure updated else rest) w)
  unfolding update_step ◌>>=◌
  update_lem env rest w k =
      let next : ℕ → M LiveReadingProjectionResult = λ n. if n == 1 then pure updated else rest in
      elim (command-cases env (update_many input) w) [
        | inl e ↦ subst (λ out. LeftOut (continue out next)) (sym e) tt
        | inr e ↦
            subst (λ out. LeftOut (continue out next)) (sym e)
              (counted_lem rest (count_older input w.db.live) _ (rewritten w.db.live) k)
      ]

  others_lem :
      (race : List LiveReading → List LiveReading) (m : M LiveReadingProjectionResult) (w : World)
      → ((w' : World) → LeftOut (m w'))
      → LeftOut ((others_commit race >> m) w)
  unfolding others_commit ◌>>=◌
  others_lem race m w k = k _

  found_lem :
      (o : Option LiveReading) (w : World)
      → find_by (has_key input) w.db.live ≡ o
      → Left (skipped_after input o) w
  found_lem none w e = tt
  found_lem (some row) w e =
      let (i, k) = find_by-some (has_key input) w.db.live e in find-Left row w i k

  module _ (env : Env) (race : Race) where
    retry_lem : (e : Fault) (w : World) → LeftOut (retry env race input e w)
    unfolding retry throw pure
    retry_lem unexpected w = tt
    retry_lem unique_violation w = others_lem (race 2) _ w (λ w'.
        update_lem env _ w'
          (λ w''. others_lem (race 3) _ w'' (λ x. after_find _ env x (λ o y e. found_lem o y e))))

    recover_lem :
        (out : Out LiveReadingProjectionResult)
        → LeftOut out
        → LeftOut (recover out (retry env race input))
    recover_lem (ok r, w) h = h
    recover_lem (err e, w) h = retry_lem e w

    settled_lem :
        (id : Uuid) (w w' : World)
        → LeftOut (continue (settle (create_live input id w.db) w') (λ made. pure (created made)))
    unfolding create_live new_live_row pure
    settled_lem id w w' = elim (Bool-cases (any_by (has_key input) w.db.live)) [
      | inl e ↦ rw e tt
      | inr e ↦ rw e (new_live_row input id, here, ground arith, (refl, refl, refl))
    ]

    create_lem : (w : World) → LeftOut (create_step env input w)
    unfolding create_step next_id ◌>>=◌
    create_lem w =
        let next : Uuid → M LiveReadingProjectionResult = λ made. pure (created made) in
        let w' = (next_id env w).1 in
        let id = env.uuid w.calls in
        elim (command-cases env (create_live input id) w') [
          | inl e ↦ subst (λ out. LeftOut (continue out next)) (sym e) tt
          | inr e ↦
              subst (λ out. LeftOut (continue out next)) (sym e) (settled_lem id w' (counted w'))
        ]

    existing_lem :
        (o : Option LiveReading) (w : World)
        → find_by (has_key input) w.db.live ≡ o
        → LeftOut (on_existing env race input o w)
    unfolding on_existing pure attempt
    existing_lem none w e =
        others_lem (race 1) _ w (λ x. recover_lem (create_step env input x) (create_lem x))
    existing_lem (some row) w e = found_lem (some row) w e

    -- Whatever else commits between the statements.
    pub project-Left : (w : World) → LeftOut (project env race input w)
    unfolding project
    project-Left w =
        update_lem env _ w (λ x. others_lem (race 0) _ x (λ y. after_find _ env y existing_lem))
