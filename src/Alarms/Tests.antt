-- ===== src/Alarms/Tests.antt =====
-- Alarm evaluation on one rule.
use rvf_malinois.Store.Effects.{Env, World}
use rvf_malinois.Alarms.Evaluation.{AcceptedTelemetryAlarmInput}
use rvf_malinois.Store.Rows.{good, critical, AlarmRule}
use rvf_malinois.Prelude.{str_eq, [], ◌∷◌, some, none, true, false, ◌+◌}

abbrev env : Env
env = record {
  fails = λ n. false;
  uuid = λ n. 100 + n;
  by_severity = λ rules. rules;
  parse_date = λ text. some 1000;
  is_finite = λ text. true;
  decimal = λ text. some text;
  greater_than = λ a b. str_eq a "99";
  less_than = λ a b. false;
}

abbrev one_rule : AlarmRule
one_rule = record {
  id = 7;
  unit_id = 3;
  canonical_tag_id = 6;
  severity = critical;
  version = 1;
  is_current = true;
  enabled = true;
  low_low_threshold = some "1";
  low_threshold = none;
  high_threshold = some "90";
  high_high_threshold = none;
  deadband = none;
  delay_seconds = none;
  message_template = none;
}

abbrev reading : AcceptedTelemetryAlarmInput
reading = record {
  telemetry_reading_id = 50;
  tenant_id = 9;
  unit_id = 3;
  sensor_id = 4;
  canonical_tag_id = 6;
  value = "99";
  engineering_unit = "psi";
  quality = good;
  timestamp = 1000;
  source = "plc";
}

abbrev quiet : World
quiet = record {
  db = record {
    sources = [];
    mappings = [];
    sensors = [];
    bindings = [];
    tags = [];
    rules = one_rule ∷ one_rule ∷ [];
    readings = [];
    live = [];
    events = [];
    errors = [];
  };
  calls = 0;
  emitted = [];
}
