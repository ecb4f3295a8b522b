-- ===== src/Telemetry/Ingestion/Frames.antt =====
-- The projection and the alarm evaluation inside the transaction of a sample.
use rvf_malinois.Store.Frames.{
  Keeps-bind, Keeps-next_id-derived, Keeps-query-derived, keeps_rules, DerivedOnly, Keeps,
}
use rvf_malinois.Telemetry.Projection.{
  Race, project, AcceptedTelemetryProjectionInput, create_live, create_step,
  update_from_accepted_telemetry, update_step, others_commit, find_step, retry, on_existing,
}
use rvf_malinois.Alarms.Evaluation.{
  AcceptedTelemetryAlarmInput, evaluate_rule, raise_event, evaluate, on_active, on_band,
  create_event, evaluate_rules, on_rules,
}
use rvf_malinois.Realtime.Events.{PendingRealtimeEmit}
use rvf_malinois.Store.Rows.{AlarmEvent, ThresholdViolated, AlarmRule, LiveReading, Db}
use rvf_malinois.Prelude.{arith, Uuid, Option, none, some, [], ◌∷◌, List}
use rvf_malinois.Store.Effects.{Fault, next_id, command, Env, unexpected, unique_violation, ◌>>=◌}

module _ {d : Db} {em : List PendingRealtimeEmit} (env : Env) where
  update_step-Keeps :
      (input : AcceptedTelemetryProjectionInput) → Keeps (DerivedOnly d em) (update_step env input)
  unfolding update_step command
  update_step-Keeps input = record { at = λ w k. ground arith }

  find_step-Keeps :
      (input : AcceptedTelemetryProjectionInput) → Keeps (DerivedOnly d em) (find_step env input)
  unfolding find_step
  find_step-Keeps input = search (Keeps-query-derived)

  command_create-Keeps :
      (input : AcceptedTelemetryProjectionInput) (id : Uuid)
      → Keeps (DerivedOnly d em) (command env (create_live input id))
  unfolding command create_live
  command_create-Keeps input id = record { at = λ w k. ground arith }

  create_step-Keeps :
      (input : AcceptedTelemetryProjectionInput) → Keeps (DerivedOnly d em) (create_step env input)
  unfolding create_step
  create_step-Keeps input = search (keeps_rules, Keeps-next_id-derived, command_create-Keeps)

  others_commit-Keeps :
      (race : List LiveReading → List LiveReading) → Keeps (DerivedOnly d em) (others_commit race)
  unfolding others_commit
  others_commit-Keeps race = record { at = λ w k. ground arith }

  retry-Keeps :
      (race : Race) (input : AcceptedTelemetryProjectionInput) (e : Fault)
      → Keeps (DerivedOnly d em) (retry env race input e)
  unfolding retry
  retry-Keeps race input unexpected = search keeps_rules
  retry-Keeps race input unique_violation =
      search (keeps_rules, others_commit-Keeps, update_step-Keeps, find_step-Keeps) depth 8

  on_existing-Keeps :
      (race : Race) (input : AcceptedTelemetryProjectionInput) (o : Option LiveReading)
      → Keeps (DerivedOnly d em) (on_existing env race input o)
  unfolding on_existing
  on_existing-Keeps race input none =
      search (keeps_rules, others_commit-Keeps, create_step-Keeps, retry-Keeps)
  on_existing-Keeps race input (some row) = search keeps_rules

  pub update-Keeps :
      (race : Race) (input : AcceptedTelemetryProjectionInput)
      → Keeps (DerivedOnly d em) (update_from_accepted_telemetry env race input)
  unfolding update_from_accepted_telemetry project
  update-Keeps race input =
      search
        (keeps_rules, others_commit-Keeps, update_step-Keeps, find_step-Keeps, on_existing-Keeps)
        depth 8

  create_event-Keeps :
      (input : AcceptedTelemetryAlarmInput) (rule : AlarmRule) (v : ThresholdViolated)
      → Keeps (DerivedOnly d em) (create_event env input rule v)
  unfolding create_event command next_id ◌>>=◌
  create_event-Keeps input rule v = record { at = λ w k. ground arith }

  on_active-Keeps :
      (input : AcceptedTelemetryAlarmInput) (rule : AlarmRule) (v : ThresholdViolated)
      (o : Option AlarmEvent)
      → Keeps (DerivedOnly d em) (on_active env input rule v o)
  unfolding on_active
  on_active-Keeps input rule v none = search (keeps_rules, create_event-Keeps)
  on_active-Keeps input rule v (some e) = search keeps_rules

  on_band-Keeps :
      (input : AcceptedTelemetryAlarmInput) (rule : AlarmRule) (o : Option ThresholdViolated)
      → Keeps (DerivedOnly d em) (on_band env input rule o)
  unfolding on_band raise_event
  on_band-Keeps input rule none = search keeps_rules
  on_band-Keeps input rule (some v) = search (keeps_rules, Keeps-query-derived, on_active-Keeps)

  evaluate_rule-Keeps :
      (input : AcceptedTelemetryAlarmInput) (rule : AlarmRule)
      → Keeps (DerivedOnly d em) (evaluate_rule env input rule)
  unfolding evaluate_rule
  evaluate_rule-Keeps input rule = search (keeps_rules, on_band-Keeps)

  evaluate_rules-Keeps :
      (input : AcceptedTelemetryAlarmInput) (rules : List AlarmRule)
      → Keeps (DerivedOnly d em) (evaluate_rules env input rules)
  unfolding evaluate_rules
  evaluate_rules-Keeps input [] = search keeps_rules
  evaluate_rules-Keeps input (rule ∷ rules) =
      Keeps-bind _ _ (evaluate_rule-Keeps input rule)
        (λ one. search (keeps_rules, evaluate_rules-Keeps input rules))

  on_rules-Keeps :
      (input : AcceptedTelemetryAlarmInput) (rules : List AlarmRule)
      → Keeps (DerivedOnly d em) (on_rules env input rules)
  unfolding on_rules
  on_rules-Keeps input [] = search keeps_rules
  on_rules-Keeps input (r ∷ rs) = search (keeps_rules, evaluate_rules-Keeps)

  pub evaluate-Keeps :
      (input : AcceptedTelemetryAlarmInput) → Keeps (DerivedOnly d em) (evaluate env input)
  unfolding evaluate
  evaluate-Keeps input = search (keeps_rules, Keeps-query-derived, on_rules-Keeps)
