-- ===== src/Realtime/Events.antt =====
-- The payloads of packages/types/src/realtime.ts and the descriptors of
-- apps/backend/src/realtime/realtime-emitter.service.ts. ISO-8601 texts stand as instants.
use rvf_malinois.Prelude.{ℕ, Uuid, Time, String, Option}
use rvf_malinois.Store.Rows.{Quality, Severity, ThresholdViolated, AlarmState}

pub record TelemetryReadingAcceptedPayload : Type 0 where
  pub telemetry_reading_id : Uuid
  pub tenant_id : Uuid
  pub unit_id : Uuid
  pub sensor_id : Uuid
  pub canonical_tag_id : Uuid
  pub value : String
  pub engineering_unit : String
  pub quality : Quality
  pub timestamp : Time
  pub source : String
  pub sequence : Option ℕ

pub data WrittenOutcome : Type 0 where
  created updated : WrittenOutcome

pub record LiveReadingUpdatedPayload : Type 0 where
  pub live_reading_id : Option Uuid
  pub tenant_id : Uuid
  pub unit_id : Uuid
  pub sensor_id : Uuid
  pub canonical_tag_id : Uuid
  pub value : String
  pub engineering_unit : String
  pub quality : Quality
  pub timestamp : Time
  pub source : String
  pub ingestion_timestamp : Time
  pub outcome : WrittenOutcome

pub record AlarmEventCreatedPayload : Type 0 where
  pub alarm_event_id : Uuid
  pub tenant_id : Uuid
  pub unit_id : Uuid
  pub canonical_tag_id : Uuid
  pub alarm_rule_id : Uuid
  pub severity : Severity
  pub triggered_value : String
  pub threshold_violated : ThresholdViolated
  pub state : AlarmState
  pub first_triggered_at : Time

pub data PendingRealtimeEmit : Type 0 where
  telemetry_reading_accepted : TelemetryReadingAcceptedPayload → PendingRealtimeEmit
  live_reading_updated : LiveReadingUpdatedPayload → PendingRealtimeEmit
  alarm_event_created : AlarmEventCreatedPayload → PendingRealtimeEmit

-- `event.payload.tenantId`
abbrev pub payload_tenant : PendingRealtimeEmit → Uuid
payload_tenant (telemetry_reading_accepted p) = p.tenant_id
payload_tenant (live_reading_updated p) = p.tenant_id
payload_tenant (alarm_event_created p) = p.tenant_id
