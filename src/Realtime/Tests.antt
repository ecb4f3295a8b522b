-- ===== src/Realtime/Tests.antt =====
-- The emitter on one event.
use rvf_malinois.Store.Rows.{active, high, critical}
use rvf_malinois.Realtime.Emitter.Delivery.{emit_many-sent, delivered}
use rvf_malinois.Realtime.Events.{alarm_event_created, PendingRealtimeEmit}
use rvf_malinois.Realtime.Emitter.{is_emission_enabled, Emitter, emit_many}
use rvf_malinois.Prelude.{◌≡◌, [], ◌∷◌, ◌++◌, some, false, if◌then◌else◌}

abbrev alarm : PendingRealtimeEmit
alarm = alarm_event_created (record {
  alarm_event_id = 1;
  tenant_id = 9;
  unit_id = 3;
  canonical_tag_id = 6;
  alarm_rule_id = 7;
  severity = critical;
  triggered_value = "99";
  threshold_violated = high;
  state = active;
  first_triggered_at = 1000;
})

abbrev idle : Emitter
idle = record { warned_disabled = false; warnings = 0; sent = []; failed = [] }

emit_many-sent_example :
    (emit_many (λ e. false) 2000 (some "true") (alarm ∷ []) idle).sent
    ≡ []
      ++ (if is_emission_enabled (some "true")
          then delivered (λ e. false) 2000 (alarm ∷ [])
          else [])
emit_many-sent_example = emit_many-sent (λ e. false) 2000 (some "true") (alarm ∷ []) idle
