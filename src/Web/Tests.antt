-- ===== src/Web/Tests.antt =====
-- The web application's telemetry on a few readings.
use rvf_malinois.Prelude.{
  str, none, some, true, List, [], ◌∷◌, map, ℕ, ◌<◌, ◌≡◌, refl, arith, keep_last, leb, ◌==◌,
}
use rvf_malinois.Web.Models.{
  Platform, TelemetryReading, good, CommissioningSnapshot, reading, frame, heartbeat,
  NormalizedTelemetryMessage, AlarmState, AlarmEvaluationResult,
}
use rvf_malinois.Web.RingBuffer.{RingBuffer, create, latest, to_array}
use rvf_malinois.Web.RingBuffer.Pushes.{push_all, create-push_all-to_array}
use rvf_malinois.Web.TelemetryStore.{
  TelemetryStore, Listener, new_store, tag_key, get_history, get_latest_reading, notify_tag,
}
use rvf_malinois.Web.TelemetryStore.History.{ingest_all, of_key, arriving, get_history-ingest_all}
use rvf_malinois.Web.TelemetryStore.Subscriptions.{unsubscribe_tag}
use rvf_malinois.Web.TelemetryStore.Notifications.{replaced, unsubscribe_tag-replaced}
use rvf_malinois.Web.Stale.{compute_stale_from_snapshot}
use rvf_malinois.Web.Evaluator.{evaluate_reading}
use rvf_malinois.Web.Selectors.{select_alarm_state, alarm_state_of}
use rvf_malinois.Web.Selectors.Honesty.{select_alarm_state-normal, Sound}
use rvf_malinois.Web.Wire.{parse_normalized_message}
use rvf_malinois.Web.Wire.RoundTrip.{print, OnWire, parse_normalized_message-print}
use rvf_malinois.Web.Wire.Strictness.{parse_normalized_message-OnWire}

abbrev two : ℕ
two = 2

create-push_all-to_array_example :
    (two ≡ 0 → create {T = ℕ} two ≡ none)
    × (0 < two
        → (r : RingBuffer ℕ) × (create two ≡ some r)
          × (to_array (push_all (4 ∷ (5 ∷ (6 ∷ []))) r)
              ≡ map some (keep_last two (4 ∷ (5 ∷ (6 ∷ []))))))
create-push_all-to_array_example = create-push_all-to_array two (4 ∷ (5 ∷ (6 ∷ [])))

-- Dates are read as one instant, and a number is compared by its pattern.
abbrev pub js : Platform
js = record {
  number_ge = λ a b. leb b a;
  number_le = leb;
  number_eq = λ a b. a == b;
  parse_date = λ text. some 1000;
  to_iso = λ ms. "2026";
}

abbrev pub sample : TelemetryReading
sample = record {
  ts = "2026";
  job_id = "j";
  tag = "p";
  value = some 50;
  unit = "psi";
  quality = good;
  sensor_id = none;
  seq = some 1;
}

abbrev messages : List NormalizedTelemetryMessage
messages =
    reading sample
    ∷ (frame (record { ts = "2026"; job_id = "j"; readings = sample ∷ (sample ∷ []) })
        ∷ (heartbeat "2026" ∷ []))

get_history-ingest_all_example :
    (s : TelemetryStore) × (called : List Listener) × (ingest_all messages (new_store 2)
      ≡ some (s, called))
    × (get_history "j" "p" s
        ≡ map some (keep_last 2 (of_key (tag_key "j" "p") (arriving messages))))
get_history-ingest_all_example = get_history-ingest_all 2 messages "j" "p" (omega arith)

unsubscribe_tag-replaced_example :
    (notify_tag "j" "p" (replaced "j" "p" 1 2 (new_store 2)).0 ≡ 2 ∷ [])
    × (notify_tag "j" "p" (
          unsubscribe_tag
            (replaced "j" "p" 1 2 (new_store 2)).1
            (replaced "j" "p" 1 2 (new_store 2)).0)
        ≡ [])
unfolding new_store
unsubscribe_tag-replaced_example = unsubscribe_tag-replaced "j" "p" 1 2 (new_store 2) refl

abbrev pub snapshot : CommissioningSnapshot
snapshot = record {
  snapshot_id = "c";
  job_id = "j";
  unit_id = "u";
  well_id = "w";
  tenant_id = "t";
  taken_at = "2026";
  sensors =
      record {
        sensor_id = "s";
        canonical_tag = "p";
        pid_instrument_tag = none;
        modbus_register = none;
        enabled = true;
      }
      ∷ [];
  effective_thresholds = λ tag. some (record {
    warning_low = none;
    warning_high = some 80;
    alarm_low = some 10;
    alarm_high = some 90;
    unit = "psi";
    precision = 1;
  });
  stale_timings = λ tag. none;
}

-- A store that has the sample, and a job on it.
abbrev pub filled : TelemetryStore
filled = record (new_store 2) {
  rings =
      (
        tag_key "j" "p",
        record { capacity = 2; slots = some sample ∷ (none ∷ []); head = 1; size = 1 },
      )
      ∷ [];
}

abbrev shown_result : AlarmEvaluationResult
shown_result = record {
  job_id = "j";
  tag = "p";
  state = AlarmState.normal;
  value = some 50;
  threshold_hit = none;
  quality = good;
  evaluated_at = "2026";
}

select_alarm_state-normal_example :
    (r : TelemetryReading) × (get_latest_reading "j" "p" filled ≡ some r)
    × Sound js filled snapshot "j" "p" 9000 r
unfolding select_alarm_state get_latest_reading alarm_state_of latest compute_stale_from_snapshot
    evaluate_reading
select_alarm_state-normal_example =
    select_alarm_state-normal js filled snapshot "j" "p" 9000 shown_result refl refl

parse_normalized_message-print_example :
    parse_normalized_message js (λ text. none) (print (reading sample)) ≡ some (reading sample)
parse_normalized_message-print_example =
    parse_normalized_message-print js (λ text. none) (reading sample) refl

parse_normalized_message-OnWire_example : OnWire js (heartbeat "2026")
unfolding parse_normalized_message
parse_normalized_message-OnWire_example =
    parse_normalized_message-OnWire js (λ text. some (print (heartbeat "2026"))) (str "{}")
      (heartbeat "2026") refl
