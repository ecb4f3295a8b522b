-- ===== src/Telemetry/Ingestion/Commit.antt =====
-- The transaction of a sample that reaches it.
use rvf_malinois.Telemetry.Ingestion.Contracts.{accepted}
use rvf_malinois.Telemetry.Ingestion.Sections.{on_fault-Meets}
use rvf_malinois.Telemetry.Ingestion.Frames.{evaluate-Keeps, update-Keeps}
use rvf_malinois.Telemetry.Ingestion.Outcomes.{IsOwn, Described, Meets, Admissible}
use rvf_malinois.Store.Endings.{Ends-attempt, Ends, EndsOut}
use rvf_malinois.Store.Frames.{
  counted-Same, Keeps-pure, command-cases, Keeps-if, Same, keeps_rules, Keeps, DerivedOnly,
}
use rvf_malinois.Telemetry.Ingestion.Storing.{
  alarm_input, alarm_emits, alarm_emit_of, projection_input, per_rule_emits, live_emits, result_at,
  accepted_emit, body, create_reading, store_sample, new_reading, derive, Normalized, SampleContext,
}
use rvf_malinois.Realtime.Events.{PendingRealtimeEmit}
use rvf_malinois.Store.Rows.{is_good, TelemetryReading, Db}
use rvf_malinois.Telemetry.Ingestion.Readings.{clashes, insert_reading}
use rvf_malinois.Telemetry.Projection.{
  alone, update_from_accepted_telemetry, created, updated, skipped_quality, skipped_stale,
  skipped_equal_timestamp, LiveReadingProjectionResult,
}
use rvf_malinois.Alarms.Evaluation.{
  evaluate, evaluated, no_rule, skipped_quality as skipped_quality_of_alarm, no_threshold_violated,
  skipped_duplicate_active, triggered, RuleStatus, AlarmEvaluationResult, AlarmRuleEvaluation,
}
use rvf_malinois.Prelude.{
  All-append, All, Bool, if◌then◌else◌, Uuid, any_by, Bool-cases, ◌⊎◌, ◌≡◌, ok, err, [], ◌∷◌, List,
  inl, inr, true, false, refl, sym, subst, ap,
}
use rvf_malinois.Store.Effects.{
  transaction, counted, finish, settle, continue, M, next_id, World, pure, emit_many, Out, Env,
  ◌>>=◌, ◌>>◌, unique_violation,
}

insert_reading-cases :
    (new : TelemetryReading) (db : Db)
    → (insert_reading new db ≡ err unique_violation)
      ⊎ (insert_reading new db ≡ ok (new.id, record db { readings = new ∷ db.readings }))
unfolding insert_reading
insert_reading-cases new db = elim (Bool-cases (any_by (clashes new) db.readings)) [
  | inl e ↦ inl (rw e)
  | inr e ↦ inr (rw e)
]

live_emits-IsOwn :
    (ctx : SampleContext) (n : Normalized) (r : LiveReadingProjectionResult)
    → All (IsOwn ctx) (live_emits ctx n r)
unfolding live_emits
live_emits-IsOwn ctx n (created id) = (refl, tt)
live_emits-IsOwn ctx n updated = (refl, tt)
live_emits-IsOwn ctx n skipped_quality = tt
live_emits-IsOwn ctx n skipped_stale = tt
live_emits-IsOwn ctx n skipped_equal_timestamp = tt

per_rule_emits-IsOwn :
    (ctx : SampleContext) (n : Normalized) (es : List AlarmRuleEvaluation)
    → All (IsOwn ctx) (per_rule_emits ctx n es)
unfolding per_rule_emits
per_rule_emits-IsOwn ctx n [] = tt
per_rule_emits-IsOwn ctx n (e ∷ es) =
    All-append (IsOwn ctx) (alarm_emit_of ctx n e e.status) (per_rule_emits ctx n es) (go e.status)
      (per_rule_emits-IsOwn ctx n es)
  where
    go : (s : RuleStatus) → All (IsOwn ctx) (alarm_emit_of ctx n e s)
    go no_threshold_violated = tt
    go (skipped_duplicate_active id) = tt
    go (triggered id v) = (refl, tt)

alarm_emits-IsOwn :
    (ctx : SampleContext) (n : Normalized) (r : AlarmEvaluationResult)
    → All (IsOwn ctx) (alarm_emits ctx n r)
alarm_emits-IsOwn ctx n (evaluated rs) = per_rule_emits-IsOwn ctx n rs
alarm_emits-IsOwn ctx n skipped_quality_of_alarm = tt
alarm_emits-IsOwn ctx n no_rule = tt

module _ (d : Db) (em : List PendingRealtimeEmit) (env : Env) (ctx : SampleContext)
    (n : Normalized) where
  abbrev with_reading : Uuid → Db
  with_reading id = record d { readings = new_reading ctx n id ∷ d.readings }

  settle_lem :
      (id : Uuid) (w : World)
      → Same d em w
      → EndsOut d em
          (λ id. Same (with_reading id) em)
          (settle (insert_reading (new_reading ctx n id) w.db) (counted w))
  unfolding new_reading
  settle_lem id w s = elim (insert_reading-cases (new_reading ctx n id) w.db) [
    | inl e ↦
        subst (λ x. EndsOut d em (λ id. Same (with_reading id) em) (settle x (counted w))) (sym e)
          (counted-Same s)
    | inr e ↦
        subst (λ x. EndsOut d em (λ id. Same (with_reading id) em) (settle x (counted w))) (sym e)
          (record {
            db_same =
                ap (λ (x : Db). record x { readings = new_reading ctx n id ∷ x.readings })
                  s.db_same;
            emitted_same = s.emitted_same;
          })
  ]

  -- After the insert: the row, and nothing else.
  create_reading-Ends : Ends d em (λ id. Same (with_reading id) em) (create_reading env ctx n)
  unfolding create_reading next_id ◌>>=◌
  create_reading-Ends = record {
    at = λ w s. elim (command-cases env (insert_reading (new_reading ctx n (env.uuid w.calls))) w) [
      | inl e ↦ subst (EndsOut d em (λ id. Same (with_reading id) em)) (sym e) (counted-Same s)
      | inr e ↦
          subst (EndsOut d em (λ id. Same (with_reading id) em)) (sym e)
            (settle_lem (env.uuid w.calls) w s)
    ];
  }

  derive-Keeps : (id : Uuid) → Keeps (DerivedOnly (with_reading id) em) (derive env ctx n id)
  unfolding derive
  derive-Keeps id = search (keeps_rules, update-Keeps, evaluate-Keeps)

  -- The derived events, where the code returns, are of the tenant of the source.
  abbrev OwnOut : Out (List PendingRealtimeEmit) → Type 0
  OwnOut (ok events, w) = All (IsOwn ctx) events
  OwnOut (err e, w) = Unit

  own_lem :
      {A : Type 0} (out : Out A) (f : A → M (List PendingRealtimeEmit))
      → ((a : A) (w : World) → OwnOut (f a w))
      → OwnOut (continue out f)
  own_lem (ok a, w) f k = k a w
  own_lem (err e, w) f k = tt

  derive-IsOwn : (id : Uuid) (w : World) → OwnOut (derive env ctx n id w)
  unfolding derive ◌>>=◌ pure
  derive-IsOwn id w =
      own_lem (update_from_accepted_telemetry env alone (projection_input ctx n id) w) _ (λ p v.
        own_lem (evaluate env (alarm_input ctx n id) v) _ (λ a x.
          All-append (IsOwn ctx) (live_emits ctx n p) (alarm_emits ctx n a)
            (live_emits-IsOwn ctx n p) (alarm_emits-IsOwn ctx n a)))

  either_own :
      (b : Bool) (id : Uuid) (w : World) → OwnOut ((if b then derive env ctx n id else pure []) w)
  unfolding pure
  either_own true id w = derive-IsOwn id w
  either_own false id w = tt

  -- What the body of the transaction hands to its end.
  record BodyDone (id : Uuid) (events : List PendingRealtimeEmit) (w : World) : Type 0 where
    pub changed : DerivedOnly (with_reading id) em w
    pub derived_emits : List PendingRealtimeEmit
    pub own : All (IsOwn ctx) derived_emits
    pub reading_first : events ≡ accepted_emit ctx n id ∷ derived_emits

  abbrev BodyOut : Out (Uuid × List PendingRealtimeEmit) → Type 0
  BodyOut (ok (id, events), w) = BodyDone id events w
  BodyOut (err e, w) = w.emitted ≡ em

  derived_lem :
      (id : Uuid) (out : Out (List PendingRealtimeEmit))
      → DerivedOnly (with_reading id) em out.1
      → OwnOut out
      → BodyOut (continue out (λ derived. pure (id, accepted_emit ctx n id ∷ derived)))
  unfolding pure
  derived_lem id (ok derived, w) k o = record {
    changed = k;
    derived_emits = derived;
    own = o;
    reading_first = refl;
  }
  derived_lem id (err e, w) k o = k.log_same

  Same-DerivedOnly :
      (id : Uuid) (w : World) → Same (with_reading id) em w → DerivedOnly (with_reading id) em w
  Same-DerivedOnly id w s = record {
    db_but_derived = ap (λ (x : Db). record x { live = w.db.live; events = w.db.events }) s.db_same;
    log_same = s.emitted_same;
  }

  abbrev after_insert : Uuid → M (Uuid × List PendingRealtimeEmit)
  after_insert id = (do
    derived ← if is_good ctx.sample.quality then derive env ctx n id else pure []
    pure (id, accepted_emit ctx n id ∷ derived))

  body_lem :
      (out : Out Uuid)
      → EndsOut d em (λ id. Same (with_reading id) em) out
      → BodyOut (continue out after_insert)
  unfolding ◌>>=◌
  body_lem (ok id, w) s =
      derived_lem id _
        ((Keeps-if (is_good ctx.sample.quality) (derive env ctx n id) (pure []) (derive-Keeps id)
            (Keeps-pure [])).at
          w (Same-DerivedOnly id w s))
        (either_own (is_good ctx.sample.quality) id w)
  body_lem (err e, w) s = s.emitted_same

  body-Ends : (w : World) → Same d em w → BodyOut (body env ctx n w)
  unfolding body ◌>>=◌
  body-Ends w s = body_lem (create_reading env ctx n w) (create_reading-Ends.at w s)

  -- After the commit and the announcement.
  commit_lem :
      Admissible env ctx d n
      → (refused : Bool) (before : Db) (out : Out (Uuid × List PendingRealtimeEmit)) → before ≡ d
      → BodyOut out
      → EndsOut d em
          (λ r. Described env ctx d em r.outcome)
          (continue
            (finish before refused out)
            (λ done. emit_many done.1 >> pure (result_at ctx.sample_index (accepted done.0))))
  unfolding ◌>>=◌ emit_many pure new_reading
  commit_lem adm refused before (err e, w) b k = record { db_same = b; emitted_same = k }
  commit_lem adm true before (ok (id, events), w) b k = record {
    db_same = b;
    emitted_same = k.changed.log_same;
  }
  commit_lem adm false before (ok (id, events), w) b k = record {
    normalized = n;
    reading_tenant = refl;
    reading_unit = refl;
    reading_tag = refl;
    reading_time = refl;
    reading_value = refl;
    admissible = adm;
    one_reading = k.changed.db_but_derived;
    derived_emits = k.derived_emits;
    own_tenant = k.own;
    announced = cc (k.changed.log_same, k.reading_first);
  }

  transaction_lem :
      Admissible env ctx d n
      → Meets env ctx d em (
          transaction env (body env ctx n) >>= λ out.
          (emit_many out.1 >> pure (result_at ctx.sample_index (accepted out.0))))
  unfolding ◌>>=◌ transaction
  transaction_lem adm = record {
    at = λ w s.
        commit_lem adm (env.fails (body env ctx n w).1.calls) w.db (body env ctx n w) s.db_same
          (body-Ends w s);
  }

  pub store_sample-Meets : Admissible env ctx d n → Meets env ctx d em (store_sample env ctx n)
  unfolding store_sample
  store_sample-Meets adm = Ends-attempt _ _ (transaction_lem adm) (on_fault-Meets n)
