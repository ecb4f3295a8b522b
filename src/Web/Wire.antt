-- ===== src/Web/Wire.antt =====
-- The parser of apps/web/lib/telemetry/adapters/websocket.ts.
pub mod RoundTrip
pub mod Strictness
use rvf_malinois.Prelude.{
  Json, Jsons, Fields, undefined, null, bool, num, str, arr, obj, nil, cons, end, field, get,
  as_text, as_array, Option, none, some, String, Bool, true, false, List, [], ◌∷◌, str_eq,
  if◌then◌else◌, is_some,
}
use rvf_malinois.Web.Models.{
  Platform, Number, TelemetryReading, TelemetryFrame, AlarmEvent, WireAlarmKind,
  CommunicationStatus, DataQuality, good, estimated, bad, uncertain, connected, reconnecting,
  disconnected, NormalizedTelemetryMessage, reading, frame, alarm, heartbeat, connection,
}

infixl 5 ◌>>=◌
-- `if (bad) return null`, or the rest with what was read.
abbrev pub ◌>>=◌ {ℓ κ} : {A : Type ℓ} {B : Type κ} → Option A → (A → Option B) → Option B
none >>= next = none
some a >>= next = next a

-- `isObj`
abbrev pub as_obj : Json → Option Fields
as_obj (obj fields) = some fields
as_obj undefined = none
as_obj null = none
as_obj (bool b) = none
as_obj (num n) = none
as_obj (str s) = none
as_obj (arr xs) = none

-- `x === null || typeof x === 'number'`
abbrev pub as_value : Json → Option (Option Number)
as_value (num n) = some (some n)
as_value null = some none
as_value undefined = none
as_value (bool b) = none
as_value (str s) = none
as_value (arr xs) = none
as_value (obj fields) = none

-- `typeof x === 'number'`
abbrev pub as_number : Json → Option Number
as_number (num n) = some n
as_number null = none
as_number undefined = none
as_number (bool b) = none
as_number (str s) = none
as_number (arr xs) = none
as_number (obj fields) = none

-- `isQuality`
unfoldable pub quality_named : String → Option DataQuality
quality_named s =
    if str_eq s "good"
    then some good
    else if str_eq s "estimated"
    then some estimated
    else if str_eq s "uncertain"
    then some uncertain
    else if str_eq s "bad"
    then some bad
    else none

-- `isWireAlarmKind`
unfoldable pub kind_named : String → Option WireAlarmKind
kind_named s =
    if str_eq s "normal"
    then some WireAlarmKind.normal
    else if str_eq s "warning_low"
    then some WireAlarmKind.warning_low
    else if str_eq s "warning_high"
    then some WireAlarmKind.warning_high
    else if str_eq s "alarm_low"
    then some WireAlarmKind.alarm_low
    else if str_eq s "alarm_high"
    then some WireAlarmKind.alarm_high
    else if str_eq s "no_data"
    then some WireAlarmKind.no_data
    else none

module _ (js : Platform) where
  -- `isValidIso`, of a text
  unfoldable pub valid_iso : String → Option String
  valid_iso s = if is_some (js.parse_date s) then some s else none

  abbrev pub as_iso : Json → Option String
  as_iso x = as_text x >>= valid_iso

  unfoldable pub parse_reading : Json → Option TelemetryReading
  unfolding valid_iso quality_named
  parse_reading x = do
    f ← as_obj x
    ts ← as_iso (get "ts" f)
    job_id ← as_text (get "jobId" f)
    tag ← as_text (get "tag" f)
    unit ← as_text (get "unit" f)
    q ← as_text (get "quality" f)
    quality ← quality_named q
    value ← as_value (get "value" f)
    some (record {
      ts = ts;
      job_id = job_id;
      tag = tag;
      value = value;
      unit = unit;
      quality = quality;
      sensor_id = as_text (get "sensorId" f);
      seq = as_number (get "seq" f);
    })

  -- The loop over the readings of a frame.
  unfoldable pub parse_readings : Jsons → Option (List TelemetryReading)
  unfolding parse_reading
  parse_readings nil = some []
  parse_readings (cons x xs) = do r ← parse_reading x; rs ← parse_readings xs; some (r ∷ rs)

  unfoldable pub parse_frame : Json → Option TelemetryFrame
  unfolding valid_iso parse_readings
  parse_frame x = do
    f ← as_obj x
    ts ← as_iso (get "ts" f)
    job_id ← as_text (get "jobId" f)
    xs ← as_array (get "readings" f)
    readings ← parse_readings xs
    some (record { ts = ts; job_id = job_id; readings = readings })

  unfoldable pub parse_alarm : Json → Option AlarmEvent
  unfolding valid_iso kind_named
  parse_alarm x = do
    f ← as_obj x
    ts ← as_iso (get "ts" f)
    job_id ← as_text (get "jobId" f)
    tag ← as_text (get "tag" f)
    k ← as_text (get "state" f)
    state ← kind_named k
    value ← as_value (get "value" f)
    source ← as_text (get "thresholdsSource" f)
    if str_eq source "commissioning_snapshot"
        then some (record {
          job_id = job_id;
          tag = tag;
          ts = ts;
          state = state;
          value = value;
          threshold = as_number (get "threshold" f);
        })
        else none

  unfoldable pub connection_of : String → Fields → Option CommunicationStatus
  unfolding valid_iso
  connection_of kind f =
      if str_eq kind "connected"
      then (as_iso (get "since" f) >>= λ since. some (connected since))
      else if str_eq kind "reconnecting"
      then some (reconnecting (as_iso (get "lastDataTs" f)))
      else if str_eq kind "disconnected"
      then some (disconnected (as_iso (get "lastDataTs" f)))
      else none

  unfoldable pub parse_connection : Json → Option CommunicationStatus
  unfolding connection_of
  parse_connection x = do f ← as_obj x; kind ← as_text (get "kind" f); connection_of kind f

  unfoldable pub message_of : String → Fields → Option NormalizedTelemetryMessage
  unfolding parse_reading parse_frame parse_alarm parse_connection valid_iso
  message_of kind f =
      if str_eq kind "reading"
      then (parse_reading (get "reading" f) >>= λ r. some (reading r))
      else if str_eq kind "frame"
      then (parse_frame (get "frame" f) >>= λ r. some (frame r))
      else if str_eq kind "alarm"
      then (parse_alarm (get "alarm" f) >>= λ a. some (alarm a))
      else if str_eq kind "heartbeat"
      then (as_iso (get "ts" f) >>= λ ts. some (heartbeat ts))
      else if str_eq kind "connection"
      then (parse_connection (get "status" f) >>= λ s. some (connection s))
      else none

  -- The value that a payload stands for: a text is read by `JSON.parse`, none where that throws.
  abbrev pub decoded : (String → Option Json) → Json → Option Json
  decoded json_parse (str s) = json_parse s
  decoded json_parse undefined = some undefined
  decoded json_parse null = some null
  decoded json_parse (bool b) = some (bool b)
  decoded json_parse (num n) = some (num n)
  decoded json_parse (arr xs) = some (arr xs)
  decoded json_parse (obj fields) = some (obj fields)

  unfoldable pub parse_normalized_message :
      (String → Option Json) → Json → Option NormalizedTelemetryMessage
  unfolding message_of
  parse_normalized_message json_parse raw = do
    x ← decoded json_parse raw
    f ← as_obj x
    kind ← as_text (get "kind" f)
    message_of kind f
