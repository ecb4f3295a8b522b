-- ===== src/Realtime/Emitter/Delivery.antt =====
-- What the emitter sends, and how often it warns.
use rvf_malinois.Realtime.Emitter.{
  warn_disabled, is_emission_enabled, Emitter, wrap_envelope, emit_one, emit_each, Emission,
}
use rvf_malinois.Realtime.Events.{
  alarm_event_created, live_reading_updated, telemetry_reading_accepted, PendingRealtimeEmit,
}
use rvf_malinois.Realtime.Emitter.{emit_many}
use rvf_malinois.Prelude.{
  Uuid, arith, ◌∙◌, inr, inl, Bool-cases, String, Option, ap, Time, ◌≡◌, Bool, List, refl, [], ◌∷◌,
  ◌++◌, if◌then◌else◌,
}

++-snoc {ℓ} :
    {A : Type ℓ} (xs : List A) (y : A) (zs : List A) → (xs ++ (y ∷ [])) ++ zs ≡ xs ++ (y ∷ zs)
++-snoc [] y zs = refl
++-snoc (x ∷ xs) y zs = ap (λ t. x ∷ t) (++-snoc xs y zs)

++-empty {ℓ} : {A : Type ℓ} (xs : List A) → xs ≡ xs ++ []
++-empty [] = refl
++-empty (x ∷ xs) = ap (λ t. x ∷ t) (++-empty xs)

-- The tenant that an event is about.
abbrev pub tenant_of : PendingRealtimeEmit → Uuid
tenant_of (telemetry_reading_accepted p) = p.tenant_id
tenant_of (live_reading_updated p) = p.tenant_id
tenant_of (alarm_event_created p) = p.tenant_id

-- An event as it is sent to the room of its own tenant.
abbrev pub sent_to_tenant : Time → PendingRealtimeEmit → Emission
sent_to_tenant now e = record {
  room = tenant_of e;
  schema = "rvf.realtime.v1";
  emitted_at = now;
  event = e;
}

-- The events that the gateway takes, each in the room of its own tenant, in order.
abbrev pub delivered :
    (PendingRealtimeEmit → Bool) → Time → List PendingRealtimeEmit → List Emission
delivered throws now [] = []
delivered throws now (e ∷ es) =
    if throws e then delivered throws now es else sent_to_tenant now e ∷ delivered throws now es

wrap_envelope-sent_to_tenant :
    (now : Time) (e : PendingRealtimeEmit) → wrap_envelope now e ≡ sent_to_tenant now e
unfolding wrap_envelope
wrap_envelope-sent_to_tenant now (telemetry_reading_accepted p) = refl
wrap_envelope-sent_to_tenant now (live_reading_updated p) = refl
wrap_envelope-sent_to_tenant now (alarm_event_created p) = refl

module _ (throws : PendingRealtimeEmit → Bool) (now : Time) where
  emit_each-sent :
      (events : List PendingRealtimeEmit) (st : Emitter)
      → (emit_each throws now events st).sent ≡ st.sent ++ delivered throws now events
  unfolding emit_each emit_one
  emit_each-sent [] st = ++-empty st.sent
  emit_each-sent (e ∷ es) st = elim (Bool-cases (throws e)) [
    | inl t ↦ emit_each-sent es (emit_one throws now e st) ∙ (rw t)
    | inr f ↦
        emit_each-sent es (emit_one throws now e st)
        ∙ (rw (f, wrap_envelope-sent_to_tenant now e)
            (++-snoc st.sent (sent_to_tenant now e) (delivered throws now es)))
  ]

warned-sent :
    (events : List PendingRealtimeEmit) (st : Emitter)
    → (warn_disabled events st).sent ≡ st.sent ++ []
unfolding warn_disabled
warned-sent [] st = ++-empty st.sent
warned-sent (e ∷ es) st = elim (Bool-cases st.warned_disabled) [
  | inl t ↦ rw t (++-empty st.sent)
  | inr f ↦ rw f (++-empty st.sent)
]

-- With the switch on, the emitter sends every event that the gateway takes to the room of its own
-- tenant, in order and after what it has sent before, whatever other events throw; with the switch
-- off it sends nothing.
pub emit_many-sent :
    (throws : PendingRealtimeEmit → Bool) (now : Time) (variable : Option String)
    (events : List PendingRealtimeEmit) (st : Emitter)
    → (emit_many throws now variable events st).sent
      ≡ st.sent ++ (if is_emission_enabled variable then delivered throws now events else [])
unfolding emit_many
emit_many-sent throws now variable events st = elim (Bool-cases (is_emission_enabled variable)) [
  | inl t ↦ rw t (emit_each-sent throws now events st)
  | inr f ↦ rw f (warned-sent events st)
]

-- The warning that emission is off has been logged once if it is marked as logged, and else never.
pub record IsWarnedOnce (st : Emitter) : Type 0 where
  pub as_marked : st.warnings ≡ (if st.warned_disabled then 1 else 0)

emit_each-IsWarnedOnce :
    (throws : PendingRealtimeEmit → Bool) (now : Time) (events : List PendingRealtimeEmit)
    (st : Emitter)
    → st.warnings ≡ (if st.warned_disabled then 1 else 0)
    → (emit_each throws now events st).warnings
      ≡ (if (emit_each throws now events st).warned_disabled then 1 else 0)
unfolding emit_each emit_one
emit_each-IsWarnedOnce throws now [] st h = h
emit_each-IsWarnedOnce throws now (e ∷ es) st h =
    emit_each-IsWarnedOnce throws now es (emit_one throws now e st) (ground arith)

warn_lem :
    (es : List PendingRealtimeEmit) (st : Emitter)
    → st.warnings ≡ (if st.warned_disabled then 1 else 0)
    → (warn_disabled es st).warnings ≡ (if (warn_disabled es st).warned_disabled then 1 else 0)
unfolding warn_disabled
warn_lem [] st k = k
warn_lem (e ∷ es) st k = ground arith

-- A call, with the switch on or off, keeps the count of logged warnings in step with the mark, so
-- that emission being off is warned of at most once.
pub emit_many-IsWarnedOnce :
    (throws : PendingRealtimeEmit → Bool) (now : Time) (variable : Option String)
    (events : List PendingRealtimeEmit) (st : Emitter)
    → IsWarnedOnce st
    → IsWarnedOnce (emit_many throws now variable events st)
unfolding emit_many warn_disabled
emit_many-IsWarnedOnce throws now variable events st h =
    elim (Bool-cases (is_emission_enabled variable)) [
      | inl t ↦ record {
        as_marked = rw t (emit_each-IsWarnedOnce throws now events st h.as_marked);
      }
      | inr f ↦ record { as_marked = rw f (warn_lem events st h.as_marked) }
    ]
