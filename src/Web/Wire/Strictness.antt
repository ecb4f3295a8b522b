-- ===== src/Web/Wire/Strictness.antt =====
-- What the parser lets through.
use rvf_malinois.Prelude.{
  as_array, Json, Jsons, Fields, nil, cons, get, as_array, as_text, subst, Option, none, some,
  String, Bool, true, false, List, is_some, ◌≡◌, refl, subst, if◌then◌else◌, All, Bool-cases, inl,
  inr, str_eq,
}
use rvf_malinois.Web.Models.{
  Platform, TelemetryReading, TelemetryFrame, AlarmEvent, CommunicationStatus,
  NormalizedTelemetryMessage, reconnecting, disconnected,
}
use rvf_malinois.Web.Wire.{
  as_value, ◌>>=◌, as_iso, as_value, as_obj, parse_reading, parse_readings, parse_frame,
  parse_alarm, parse_connection, connection_of, message_of, parse_normalized_message, valid_iso,
  quality_named, kind_named, decoded,
}
use rvf_malinois.Web.Wire.RoundTrip.{Dated, DatedStatus, OnWire}

-- Whatever is returned has the property.
abbrev Returns {ℓ κ} : {A : Type ℓ} → (A → Type κ) → Option A → Type κ
Returns P none = Unit
Returns P (some a) = P a

bind {ℓ κ μ} :
    {A : Type ℓ} {B : Type κ} (P : B → Type μ) (o : Option A) (next : A → Option B)
    → ((a : A) → o ≡ some a → Returns P (next a))
    → Returns P (o >>= next)
bind P none next h = tt
bind P (some a) next h = h a refl

returned {ℓ κ} :
    {A : Type ℓ} (P : A → Type κ) (o : Option A) {a : A} → Returns P o → o ≡ some a → P a
returned P none h e = cc
returned P (some b) h e = let i : b ≡ _ = cc in subst P i h

either {ℓ κ} :
    {A : Type ℓ} (P : A → Type κ) (b : Bool) (x y : Option A)
    → Returns P x
    → Returns P y
    → Returns P (if b then x else y)
either P true x y p q = p
either P false x y p q = q

module _ (js : Platform) where
  valid_iso-Dated : (s : String) → Returns (Dated js) (valid_iso js s)
  unfolding valid_iso
  valid_iso-Dated s = elim (Bool-cases (is_some (js.parse_date s))) [
    | inl e ↦ rw e e
    | inr e ↦ rw e tt
  ]

  as_iso-Dated : (x : Json) → Returns (Dated js) (as_iso js x)
  as_iso-Dated x = bind (Dated js) (as_text x) _ (λ s e. valid_iso-Dated s)

  parse_reading-Dated : (x : Json) → Returns (λ r. Dated js r.ts) (parse_reading js x)
  unfolding parse_reading
  parse_reading-Dated x =
      let P : TelemetryReading → Type 0 = λ r. Dated js r.ts in
      bind P (as_obj x) _ (λ f e. bind P (as_iso js (get "ts" f)) _ (λ ts d.
        bind P (as_text (get "jobId" f)) _ (λ j e. bind P (as_text (get "tag" f)) _ (λ t e.
          bind P (as_text (get "unit" f)) _ (λ u e. bind P (as_text (get "quality" f)) _ (λ q e.
            bind P (quality_named q) _ (λ q' e. bind P (as_value (get "value" f)) _ (λ v e.
              returned (Dated js) (as_iso js (get "ts" f)) (as_iso-Dated (get "ts" f)) d))))))))

  parse_readings-Dated : (xs : Jsons) → Returns (All (λ r. Dated js r.ts)) (parse_readings js xs)
  unfolding parse_readings
  parse_readings-Dated nil = tt
  parse_readings-Dated (cons x xs) =
      let P : List TelemetryReading → Type 0 = All (λ r. Dated js r.ts) in
      bind P (parse_reading js x) _ (λ r d. bind P (parse_readings js xs) _ (λ rs ds. (
        returned (λ r. Dated js r.ts) (parse_reading js x) (parse_reading-Dated x) d,
        returned P (parse_readings js xs) (parse_readings-Dated xs) ds,
      )))

  parse_frame-Dated :
      (x : Json)
      → Returns (λ f. Dated js f.ts × All (λ r. Dated js r.ts) f.readings) (parse_frame js x)
  unfolding parse_frame
  parse_frame-Dated x =
      let P : TelemetryFrame → Type 0 = λ f. Dated js f.ts × All (λ r. Dated js r.ts) f.readings in
      bind P (as_obj x) _ (λ f e. bind P (as_iso js (get "ts" f)) _ (λ ts d.
        bind P (as_text (get "jobId" f)) _ (λ j e. bind P (as_array (get "readings" f)) _ (λ xs e.
          bind P (parse_readings js xs) _ (λ rs ds. (
            returned (Dated js) (as_iso js (get "ts" f)) (as_iso-Dated (get "ts" f)) d,
            returned (All (λ r. Dated js r.ts)) (parse_readings js xs) (parse_readings-Dated xs) ds,
          ))))))

  parse_alarm-Dated : (x : Json) → Returns (λ a. Dated js a.ts) (parse_alarm js x)
  unfolding parse_alarm
  parse_alarm-Dated x =
      let P : AlarmEvent → Type 0 = λ a. Dated js a.ts in
      bind P (as_obj x) _ (λ f e. bind P (as_iso js (get "ts" f)) _ (λ ts d.
        bind P (as_text (get "jobId" f)) _ (λ j e. bind P (as_text (get "tag" f)) _ (λ t e.
          bind P (as_text (get "state" f)) _ (λ k e. bind P (kind_named k) _ (λ s e.
            bind P (as_value (get "value" f)) _ (λ v e.
              bind P (as_text (get "thresholdsSource" f)) _ (λ src e.
                either P (str_eq src "commissioning_snapshot") _ _
                  (returned (Dated js) (as_iso js (get "ts" f)) (as_iso-Dated (get "ts" f)) d)
                  tt))))))))

  reconnecting-Dated : (o : Option String) → Returns (Dated js) o → DatedStatus js (reconnecting o)
  reconnecting-Dated none h = tt
  reconnecting-Dated (some ts) h = h

  disconnected-Dated : (o : Option String) → Returns (Dated js) o → DatedStatus js (disconnected o)
  disconnected-Dated none h = tt
  disconnected-Dated (some ts) h = h

  connection_of-Dated :
      (kind : String) (f : Fields) → Returns (DatedStatus js) (connection_of js kind f)
  unfolding connection_of
  connection_of-Dated kind f =
      let last = as_iso js (get "lastDataTs" f) in
      let dated = as_iso-Dated (get "lastDataTs" f) in
      let P : CommunicationStatus → Type 0 = DatedStatus js in
      either P (str_eq kind "connected") _ _
        (bind P (as_iso js (get "since" f)) _ (λ since e.
          returned (Dated js) (as_iso js (get "since" f)) (as_iso-Dated (get "since" f)) e))
        (either P (str_eq kind "reconnecting") _ _ (reconnecting-Dated last dated)
          (either P (str_eq kind "disconnected") _ _ (disconnected-Dated last dated) tt))

  parse_connection-Dated : (x : Json) → Returns (DatedStatus js) (parse_connection js x)
  unfolding parse_connection
  parse_connection-Dated x =
      bind (DatedStatus js) (as_obj x) _
        (λ f e. bind (DatedStatus js) (as_text (get "kind" f)) _ (λ k e. connection_of-Dated k f))

  message_of-OnWire : (kind : String) (f : Fields) → Returns (OnWire js) (message_of js kind f)
  unfolding message_of
  message_of-OnWire kind f =
      let P : NormalizedTelemetryMessage → Type 0 = OnWire js in
      either P (str_eq kind "reading") _ _
        (bind P (parse_reading js (get "reading" f)) _
          (λ r e. returned (λ r. Dated js r.ts) _ (parse_reading-Dated (get "reading" f)) e))
        (either P (str_eq kind "frame") _ _
          (bind P (parse_frame js (get "frame" f)) _ (λ r e.
            returned (λ r. Dated js r.ts × All (λ r. Dated js r.ts) r.readings) _
              (parse_frame-Dated (get "frame" f)) e))
          (either P (str_eq kind "alarm") _ _
            (bind P (parse_alarm js (get "alarm" f)) _
              (λ a e. returned (λ a. Dated js a.ts) _ (parse_alarm-Dated (get "alarm" f)) e))
            (either P (str_eq kind "heartbeat") _ _
              (bind P (as_iso js (get "ts" f)) _
                (λ ts e. returned (Dated js) _ (as_iso-Dated (get "ts" f)) e))
              (either P (str_eq kind "connection") _ _
                (bind P (parse_connection js (get "status" f)) _
                  (λ s e. returned (DatedStatus js) _ (parse_connection-Dated (get "status" f)) e))
                tt))))

  -- Whatever the payload is, a message that the parser returns is one of the five kinds that the
  -- wire carries, and each of its timestamps, those of a frame's readings included, can be read.
  pub parse_normalized_message-OnWire :
      (json_parse : String → Option Json) (raw : Json) (m : NormalizedTelemetryMessage)
      → parse_normalized_message js json_parse raw ≡ some m
      → OnWire js m
  unfolding parse_normalized_message
  parse_normalized_message-OnWire json_parse raw m =
      returned (OnWire js) (parse_normalized_message js json_parse raw) (
        bind (OnWire js) (decoded js json_parse raw) _ (λ x e.
          bind (OnWire js) (as_obj x) _
            (λ f e. bind (OnWire js) (as_text (get "kind" f)) _ (λ k e. message_of-OnWire k f))))
