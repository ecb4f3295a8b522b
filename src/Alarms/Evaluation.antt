-- ===== src/Alarms/Evaluation.antt =====
-- apps/backend/src/alarms/alarm-evaluation.service.ts
use rvf_malinois.Store.Rows.{
  low, low_low, is_good, high, RuleSnapshot, Quality, is_active, high_high, active, Severity,
  ThresholdViolated, AlarmEvent, Decimal, AlarmRule,
}
use rvf_malinois.Store.Effects.{◌>>=◌, pure, M, command, query, next_id, Env}
use rvf_malinois.Prelude.{
  ◌==◌, Uuid, Time, String, Bool, false, ◌&&◌, Option, none, some, List, [], ◌∷◌, filter_by,
  find_by, if◌then◌else◌, ok,
}

-- The accepted row that the ingestion service hands over.
pub record AcceptedTelemetryAlarmInput : Type 0 where
  pub telemetry_reading_id : Uuid
  pub tenant_id : Uuid
  pub unit_id : Uuid
  pub sensor_id : Uuid
  pub canonical_tag_id : Uuid
  pub value : Decimal
  pub engineering_unit : String
  pub quality : Quality
  pub timestamp : Time
  pub source : String

pub data RuleStatus : Type 0 where
  no_threshold_violated : RuleStatus
  skipped_duplicate_active : Uuid → RuleStatus
  triggered : Uuid → ThresholdViolated → RuleStatus

pub record AlarmRuleEvaluation : Type 0 where
  pub rule_id : Uuid
  pub severity : Severity
  pub status : RuleStatus

pub data AlarmEvaluationResult : Type 0 where
  skipped_quality no_rule : AlarmEvaluationResult
  evaluated : List AlarmRuleEvaluation → AlarmEvaluationResult

-- `threshold !== null && compare(threshold)`
abbrev pub crosses : (Decimal → Bool) → Option Decimal → Bool
crosses compare none = false
crosses compare (some threshold) = compare threshold

abbrev pub is_eligible : AcceptedTelemetryAlarmInput → AlarmRule → Bool
is_eligible input rule =
    rule.unit_id == input.unit_id
    && rule.canonical_tag_id == input.canonical_tag_id
    && rule.is_current
    && rule.enabled

abbrev pub names_rule : Option Uuid → Uuid → Bool
names_rule none id = false
names_rule (some r) id = r == id

-- The `where` of the duplicate-active guard.
abbrev pub is_active_event_of : Uuid → Uuid → Uuid → AlarmEvent → Bool
is_active_event_of unit tag rule e =
    e.unit_id == unit
    && e.canonical_tag_id == tag
    && names_rule e.alarm_rule_id rule
    && is_active e.state

unfoldable pub build_rule_snapshot :
    AlarmRule → AcceptedTelemetryAlarmInput → ThresholdViolated → RuleSnapshot
build_rule_snapshot rule input violated = record {
  rule = record {
    id = rule.id;
    severity = rule.severity;
    version = rule.version;
    enabled = rule.enabled;
    low_low_threshold = rule.low_low_threshold;
    low_threshold = rule.low_threshold;
    high_threshold = rule.high_threshold;
    high_high_threshold = rule.high_high_threshold;
    deadband = rule.deadband;
    delay_seconds = rule.delay_seconds;
    message_template = rule.message_template;
  };
  threshold_violated = violated;
  value = input.value;
  engineering_unit = input.engineering_unit;
  quality = input.quality;
  source = input.source;
  timestamp = input.timestamp;
  telemetry_reading_id = input.telemetry_reading_id;
}

module _ (env : Env) where
  unfoldable pub pick_violated_band : Decimal → AlarmRule → Option ThresholdViolated
  pick_violated_band value rule =
      if crosses (env.greater_than value) rule.high_high_threshold
      then some high_high
      else if crosses (env.greater_than value) rule.high_threshold
      then some high
      else if crosses (env.less_than value) rule.low_low_threshold
      then some low_low
      else if crosses (env.less_than value) rule.low_threshold
      then some low
      else none

  -- `alarmEvent.create`, given the id that the row gets
  unfoldable pub new_event :
      Uuid → AcceptedTelemetryAlarmInput → AlarmRule → ThresholdViolated → AlarmEvent
  unfolding build_rule_snapshot
  new_event id input rule violated = record {
    id = id;
    tenant_id = input.tenant_id;
    unit_id = input.unit_id;
    canonical_tag_id = input.canonical_tag_id;
    alarm_rule_id = some rule.id;
    severity = rule.severity;
    triggered_value = input.value;
    threshold_violated = violated;
    state = active;
    first_triggered_at = input.timestamp;
    rule_snapshot = build_rule_snapshot rule input violated;
  }

  unfoldable pub create_event : AcceptedTelemetryAlarmInput → AlarmRule → ThresholdViolated → M Uuid
  unfolding command next_id new_event
  create_event input rule violated = do
    id ← next_id env
    command env (λ db. ok (id, record db { events = new_event id input rule violated ∷ db.events }))

  -- The duplicate-active guard.
  unfoldable pub on_active :
      AcceptedTelemetryAlarmInput → AlarmRule → ThresholdViolated → Option AlarmEvent → M RuleStatus
  unfolding create_event
  on_active input rule violated (some e) = pure (skipped_duplicate_active e.id)
  on_active input rule violated none = do
    id ← create_event input rule violated
    pure (triggered id violated)

  -- The body of the loop once a band is violated.
  unfoldable pub raise_event :
      AcceptedTelemetryAlarmInput → AlarmRule → ThresholdViolated → M RuleStatus
  unfolding query on_active
  raise_event input rule violated = do
    existing ←
        query env (λ db.
          find_by (is_active_event_of input.unit_id input.canonical_tag_id rule.id) db.events)
    on_active input rule violated existing

  unfoldable pub on_band :
      AcceptedTelemetryAlarmInput → AlarmRule → Option ThresholdViolated → M RuleStatus
  unfolding raise_event
  on_band input rule none = pure no_threshold_violated
  on_band input rule (some violated) = raise_event input rule violated

  -- The body of the loop over the eligible rules.
  unfoldable pub evaluate_rule : AcceptedTelemetryAlarmInput → AlarmRule → M AlarmRuleEvaluation
  unfolding pick_violated_band on_band
  evaluate_rule input rule = do
    status ← on_band input rule (pick_violated_band input.value rule)
    pure (record { rule_id = rule.id; severity = rule.severity; status = status })

  unfoldable pub evaluate_rules :
      AcceptedTelemetryAlarmInput → List AlarmRule → M (List AlarmRuleEvaluation)
  unfolding evaluate_rule
  evaluate_rules input [] = pure []
  evaluate_rules input (rule ∷ rules) = do
    one ← evaluate_rule input rule
    rest ← evaluate_rules input rules
    pure (one ∷ rest)

  unfoldable pub on_rules : AcceptedTelemetryAlarmInput → List AlarmRule → M AlarmEvaluationResult
  unfolding evaluate_rules
  on_rules input [] = pure no_rule
  on_rules input (r ∷ rs) = do per_rule ← evaluate_rules input (r ∷ rs); pure (evaluated per_rule)

  unfoldable pub evaluate : AcceptedTelemetryAlarmInput → M AlarmEvaluationResult
  unfolding query on_rules
  evaluate input =
      if is_good input.quality
      then (do
        rules ← query env (λ db. env.by_severity (filter_by (is_eligible input) db.rules))
        on_rules input rules)
      else pure skipped_quality
