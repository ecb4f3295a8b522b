-- ===== src/Realtime/Emitter.antt =====
-- apps/backend/src/realtime/realtime-emitter.service.ts. Whether the gateway's `emit` throws is a
-- parameter; the structured fields of the log entries are left out.
use rvf_malinois.Realtime.Events.{payload_tenant, PendingRealtimeEmit}
use rvf_malinois.Prelude.{
  str_eq, ℕ, String, Time, Option, Uuid, Bool, List, refl, [], ◌∷◌, ◌++◌, none, some, true, false,
  if◌then◌else◌, suc,
}
pub mod Delivery

-- `wrapEnvelope`, with the tenant whose room it is sent to. The kind and the payload of the envelope
-- are those of the descriptor.
pub record Emission : Type 0 where
  pub room : Uuid
  pub schema : String
  pub emitted_at : Time
  pub event : PendingRealtimeEmit

pub record Emitter : Type 0 where
  pub warned_disabled : Bool
  pub warnings : ℕ
  pub sent : List Emission
  pub failed : List PendingRealtimeEmit

-- `process.env.RVF_REALTIME_EMIT_ENABLED === 'true'`
abbrev pub is_emission_enabled : Option String → Bool
is_emission_enabled none = false
is_emission_enabled (some s) = str_eq s "true"

unfoldable pub wrap_envelope : Time → PendingRealtimeEmit → Emission
wrap_envelope now event = record {
  room = payload_tenant event;
  schema = "rvf.realtime.v1";
  emitted_at = now;
  event = event;
}

-- `if (!this.warnedDisabled && events.length > 0)`
unfoldable pub warn_disabled : List PendingRealtimeEmit → Emitter → Emitter
warn_disabled [] st = st
warn_disabled (e ∷ es) st =
    if st.warned_disabled
    then st
    else record st { warned_disabled = true; warnings = suc st.warnings }

module _ (throws : PendingRealtimeEmit → Bool) (now : Time) where
  -- The body of the loop: a throw is logged and dropped.
  unfoldable pub emit_one : PendingRealtimeEmit → Emitter → Emitter
  unfolding wrap_envelope
  emit_one event st =
      if throws event
      then record st { failed = st.failed ++ (event ∷ []) }
      else record st { sent = st.sent ++ (wrap_envelope now event ∷ []) }

  unfoldable pub emit_each : List PendingRealtimeEmit → Emitter → Emitter
  unfolding emit_one
  emit_each [] st = st
  emit_each (e ∷ es) st = emit_each es (emit_one e st)

  unfoldable pub emit_many : Option String → List PendingRealtimeEmit → Emitter → Emitter
  unfolding emit_each warn_disabled
  emit_many variable events st =
      if is_emission_enabled variable then emit_each events st else warn_disabled events st
