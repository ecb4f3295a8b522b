-- ===== src/Web/Wire/RoundTrip.antt =====
-- What the parser reads back of a message that a server writes.
use rvf_malinois.Prelude.{
  get, as_text, Json, Jsons, Fields, null, num, str, arr, obj, nil, cons, end, field, Option, none,
  some, String, true, List, [], ◌∷◌, is_some, ◌≡◌, refl, All,
}
use rvf_malinois.Web.Models.{
  Platform, Number, TelemetryReading, TelemetryFrame, AlarmEvent, WireAlarmKind,
  CommunicationStatus, DataQuality, good, estimated, bad, uncertain, connected, reconnecting,
  disconnected, NormalizedTelemetryMessage, reading, frame, alarm, heartbeat, connection,
  snapshot_update,
}
use rvf_malinois.Web.Wire.{
  as_value, as_number, parse_reading, parse_readings, parse_frame, parse_alarm, parse_connection,
  connection_of, message_of, parse_normalized_message, valid_iso, quality_named, kind_named,
}

abbrev pub quality_text : DataQuality → String
quality_text good = "good"
quality_text estimated = "estimated"
quality_text uncertain = "uncertain"
quality_text bad = "bad"

abbrev pub kind_text : WireAlarmKind → String
kind_text WireAlarmKind.normal = "normal"
kind_text WireAlarmKind.warning_low = "warning_low"
kind_text WireAlarmKind.warning_high = "warning_high"
kind_text WireAlarmKind.alarm_low = "alarm_low"
kind_text WireAlarmKind.alarm_high = "alarm_high"
kind_text WireAlarmKind.no_data = "no_data"

abbrev pub print_value : Option Number → Json
print_value none = null
print_value (some n) = num n

-- A field that is left out when there is nothing to write.
abbrev pub optional {ℓ} : {A : Type ℓ} → String → (A → Json) → Option A → Fields → Fields
optional key print none rest = rest
optional key print (some a) rest = field key (print a) rest

abbrev pub print_reading : TelemetryReading → Json
print_reading r = obj (
    field "ts" (str r.ts) (
      field "jobId" (str r.job_id) (
        field "tag" (str r.tag) (
          field "value" (print_value r.value) (
            field "unit" (str r.unit) (
              field "quality" (str (quality_text r.quality))
                (optional "sensorId" str r.sensor_id (optional "seq" num r.seq end))))))))

abbrev pub print_readings : List TelemetryReading → Jsons
print_readings [] = nil
print_readings (r ∷ rs) = cons (print_reading r) (print_readings rs)

abbrev pub print_frame : TelemetryFrame → Json
print_frame f = obj (
    field "ts" (str f.ts)
      (field "jobId" (str f.job_id) (field "readings" (arr (print_readings f.readings)) end)))

abbrev pub print_alarm : AlarmEvent → Json
print_alarm a = obj (
    field "ts" (str a.ts) (
      field "jobId" (str a.job_id) (
        field "tag" (str a.tag) (
          field "state" (str (kind_text a.state)) (
            field "value" (print_value a.value) (
              field "thresholdsSource" (str "commissioning_snapshot")
                (optional "threshold" num a.threshold end)))))))

abbrev pub print_connection : CommunicationStatus → Json
print_connection (connected since) =
    obj (field "kind" (str "connected") (field "since" (str since) end))
print_connection (reconnecting ts) =
    obj (field "kind" (str "reconnecting") (optional "lastDataTs" str ts end))
print_connection (disconnected ts) =
    obj (field "kind" (str "disconnected") (optional "lastDataTs" str ts end))

abbrev pub print : NormalizedTelemetryMessage → Json
print (reading r) = obj (field "kind" (str "reading") (field "reading" (print_reading r) end))
print (frame f) = obj (field "kind" (str "frame") (field "frame" (print_frame f) end))
print (alarm a) = obj (field "kind" (str "alarm") (field "alarm" (print_alarm a) end))
print (heartbeat ts) = obj (field "kind" (str "heartbeat") (field "ts" (str ts) end))
print (connection s) =
    obj (field "kind" (str "connection") (field "status" (print_connection s) end))
print (snapshot_update snapshot) = obj (field "kind" (str "snapshot-update") end)

module _ (js : Platform) where
  -- The timestamps of a message can be read.
  abbrev pub Dated : String → Type 0
  Dated ts = is_some (js.parse_date ts) ≡ true

  abbrev pub DatedStatus : CommunicationStatus → Type 0
  DatedStatus (connected since) = Dated since
  DatedStatus (reconnecting none) = Unit
  DatedStatus (reconnecting (some ts)) = Dated ts
  DatedStatus (disconnected none) = Unit
  DatedStatus (disconnected (some ts)) = Dated ts

  abbrev pub OnWire : NormalizedTelemetryMessage → Type 0
  OnWire (reading r) = Dated r.ts
  OnWire (frame f) = Dated f.ts × All (λ r. Dated r.ts) f.readings
  OnWire (alarm a) = Dated a.ts
  OnWire (heartbeat ts) = Dated ts
  OnWire (connection s) = DatedStatus s
  OnWire (snapshot_update snapshot) = ⊥

  quality_named-quality_text : (q : DataQuality) → quality_named (quality_text q) ≡ some q
  unfolding quality_named
  quality_named-quality_text good = refl
  quality_named-quality_text estimated = refl
  quality_named-quality_text uncertain = refl
  quality_named-quality_text bad = refl

  kind_named-kind_text : (k : WireAlarmKind) → kind_named (kind_text k) ≡ some k
  unfolding kind_named
  kind_named-kind_text WireAlarmKind.normal = refl
  kind_named-kind_text WireAlarmKind.warning_low = refl
  kind_named-kind_text WireAlarmKind.warning_high = refl
  kind_named-kind_text WireAlarmKind.alarm_low = refl
  kind_named-kind_text WireAlarmKind.alarm_high = refl
  kind_named-kind_text WireAlarmKind.no_data = refl

  valid_iso-some : (ts : String) → Dated ts → valid_iso js ts ≡ some ts
  unfolding valid_iso
  valid_iso-some ts h = rw h refl

  as_value-print_value : (v : Option Number) → as_value (print_value v) ≡ some v
  as_value-print_value none = refl
  as_value-print_value (some n) = refl

  sensor_back :
      (s : Option String) (q : Option Number)
      → as_text (get "sensorId" (optional "sensorId" str s (optional "seq" num q end))) ≡ s
  sensor_back none none = refl
  sensor_back none (some q) = refl
  sensor_back (some s) q = refl

  seq_back :
      (s : Option String) (q : Option Number)
      → as_number (get "seq" (optional "sensorId" str s (optional "seq" num q end))) ≡ q
  seq_back none none = refl
  seq_back none (some q) = refl
  seq_back (some s) none = refl
  seq_back (some s) (some q) = refl

  threshold_back :
      (n : Option Number) → as_number (get "threshold" (optional "threshold" num n end)) ≡ n
  threshold_back none = refl
  threshold_back (some n) = refl

  parse_reading-print :
      (r : TelemetryReading) → Dated r.ts → parse_reading js (print_reading r) ≡ some r
  unfolding parse_reading
  parse_reading-print r h =
      rw
        (
          valid_iso-some r.ts h,
          quality_named-quality_text r.quality,
          as_value-print_value r.value,
          sensor_back r.sensor_id r.seq,
          seq_back r.sensor_id r.seq,
        )
        refl

  parse_readings-print :
      (rs : List TelemetryReading)
      → All (λ r. Dated r.ts) rs
      → parse_readings js (print_readings rs) ≡ some rs
  unfolding parse_readings
  parse_readings-print [] h = refl
  parse_readings-print (r ∷ rs) (h, hs) =
      rw (parse_reading-print r h, parse_readings-print rs hs) refl

  parse_alarm-print : (a : AlarmEvent) → Dated a.ts → parse_alarm js (print_alarm a) ≡ some a
  unfolding parse_alarm
  parse_alarm-print a h =
      rw
        (
          valid_iso-some a.ts h,
          kind_named-kind_text a.state,
          as_value-print_value a.value,
          threshold_back a.threshold,
        )
        refl

  parse_connection-print :
      (s : CommunicationStatus) → DatedStatus s → parse_connection js (print_connection s) ≡ some s
  unfolding parse_connection connection_of valid_iso
  parse_connection-print (connected since) h = rw h refl
  parse_connection-print (reconnecting none) h = refl
  parse_connection-print (reconnecting (some ts)) h = rw h refl
  parse_connection-print (disconnected none) h = refl
  parse_connection-print (disconnected (some ts)) h = rw h refl

  parse_frame-print :
      (f : TelemetryFrame)
      → Dated f.ts
      → All (λ r. Dated r.ts) f.readings
      → parse_frame js (print_frame f) ≡ some f
  unfolding parse_frame
  parse_frame-print f h hs = rw (valid_iso-some f.ts h, parse_readings-print f.readings hs) refl

  -- Every message but a snapshot update, written as an object with the fields of the contract and
  -- with timestamps that can be read, is read back as it was.
  pub parse_normalized_message-print :
      (json_parse : String → Option Json) (m : NormalizedTelemetryMessage)
      → OnWire m
      → parse_normalized_message js json_parse (print m) ≡ some m
  unfolding parse_normalized_message message_of
  parse_normalized_message-print json_parse (reading r) h = rw (parse_reading-print r h) refl
  parse_normalized_message-print json_parse (frame f) (h, hs) = rw (parse_frame-print f h hs) refl
  parse_normalized_message-print json_parse (alarm a) h = rw (parse_alarm-print a h) refl
  parse_normalized_message-print json_parse (heartbeat ts) h = rw (valid_iso-some ts h) refl
  parse_normalized_message-print json_parse (connection s) h = rw (parse_connection-print s h) refl
  parse_normalized_message-print json_parse (snapshot_update snapshot) h = absurd h
