-- ===== src/Web/TelemetryStore.antt =====
-- apps/web/lib/realtime/telemetryStore.ts. A listener is the number it was made with, and the
-- listeners that an operation calls are a list in the order of the calls. A `Set` of listeners
-- stands in the heap `sets` under a number, which the maps and the unsubscribe functions share.
pub mod Subscriptions
pub mod History
pub mod Notifications
use rvf_malinois.Prelude.{
  Option, none, some, List, [], ◌∷◌, ◌++◌, String, Bool, true, false, ℕ, if◌then◌else◌, ◌==◌,
  str_eq, lookup, assign, remove, get_or, set, length, any_by, filter_by, map, suc,
}
use rvf_malinois.Web.Models.{
  JobId, CanonicalTag, TelemetryReading, AlarmEvent, CommunicationStatus, disconnected,
  NormalizedTelemetryMessage, reading, frame, alarm, snapshot_update, heartbeat, connection,
}
use rvf_malinois.Web.RingBuffer.{RingBuffer, create, push, latest, to_array}
use Prim.Native.String.{◌++◌ as ◌+++◌}

abbrev pub Listener : Type 0
Listener = ℕ

abbrev pub SetRef : Type 0
SetRef = ℕ

unfoldable pub tag_key : JobId → CanonicalTag → String
tag_key job_id tag = job_id +++ ("#" +++ tag)

pub record TelemetryStore : Type 0 where
  pub capacity : ℕ
  pub rings : List (String × RingBuffer TelemetryReading)
  pub latest_alarms : List (String × AlarmEvent)
  pub tag_listeners : List (String × SetRef)
  pub job_listeners : List (String × SetRef)
  pub conn_listeners : List Listener
  pub connection_status : CommunicationStatus
  pub sets : List (List Listener)

unfoldable pub new_store : ℕ → TelemetryStore
new_store capacity = record {
  capacity = capacity;
  rings = [];
  latest_alarms = [];
  tag_listeners = [];
  job_listeners = [];
  conn_listeners = [];
  connection_status = disconnected none;
  sets = [];
}

-- `set.add(listener)` and `set.delete(listener)`
abbrev pub add : Listener → List Listener → List Listener
add l ls = if any_by (λ x. x == l) ls then ls else ls ++ (l ∷ [])

abbrev pub delete : Listener → List Listener → List Listener
delete l ls = filter_by (λ x. if x == l then false else true) ls

abbrev pub members : Option SetRef → List (List Listener) → List Listener
members none sets = []
members (some ref) sets = get_or sets ref []

-- The listeners that a notification calls.
unfoldable pub notify_tag : JobId → CanonicalTag → TelemetryStore → List Listener
unfolding tag_key
notify_tag job_id tag s = members (lookup (tag_key job_id tag) s.tag_listeners) s.sets

unfoldable pub notify_job : JobId → TelemetryStore → List Listener
notify_job job_id s = members (lookup job_id s.job_listeners) s.sets

-- `rings.get(key)`, or a new ring; none where its construction throws
abbrev pub ring_or_new :
    ℕ → Option (RingBuffer TelemetryReading) → Option (RingBuffer TelemetryReading)
ring_or_new capacity (some ring) = some ring
ring_or_new capacity none = create capacity

unfoldable pub store_pushed :
    TelemetryReading
    → TelemetryStore
    → Option (RingBuffer TelemetryReading)
    → Option (TelemetryStore × List Listener)
unfolding tag_key notify_tag notify_job
store_pushed r s none = none
store_pushed r s (some ring) = some (
  record s { rings = assign (tag_key r.job_id r.tag) (push r ring) s.rings },
  notify_tag r.job_id r.tag s ++ notify_job r.job_id s,
)

unfoldable pub ingest_reading :
    TelemetryReading → TelemetryStore → Option (TelemetryStore × List Listener)
unfolding tag_key store_pushed
ingest_reading r s =
    store_pushed r s (ring_or_new s.capacity (lookup (tag_key r.job_id r.tag) s.rings))

abbrev pub add_calls :
    List Listener
    → Option (TelemetryStore × List Listener)
    → Option (TelemetryStore × List Listener)
add_calls called none = none
add_calls called (some (s, more)) = some (s, called ++ more)

abbrev pub then_calls :
    (TelemetryStore → Option (TelemetryStore × List Listener))
    → Option (TelemetryStore × List Listener)
    → Option (TelemetryStore × List Listener)
then_calls next none = none
then_calls next (some (s, called)) = add_calls called (next s)

unfoldable pub ingest_readings :
    List TelemetryReading → TelemetryStore → Option (TelemetryStore × List Listener)
unfolding ingest_reading
ingest_readings [] s = some (s, [])
ingest_readings (r ∷ rs) s = then_calls (ingest_readings rs) (ingest_reading r s)

unfoldable pub ingest :
    NormalizedTelemetryMessage → TelemetryStore → Option (TelemetryStore × List Listener)
unfolding tag_key notify_tag notify_job ingest_reading ingest_readings
ingest (reading r) s = ingest_reading r s
ingest (frame f) s = ingest_readings f.readings s
ingest (alarm a) s = some (
  record s { latest_alarms = assign (tag_key a.job_id a.tag) a s.latest_alarms },
  notify_tag a.job_id a.tag s ++ notify_job a.job_id s,
)
ingest (connection status) s = some (record s { connection_status = status }, s.conn_listeners)
ingest (heartbeat ts) s = some (s, [])
ingest (snapshot_update snapshot) s = some (s, [])

abbrev pub latest_of : Option (RingBuffer TelemetryReading) → Option TelemetryReading
latest_of none = none
latest_of (some ring) = latest ring

abbrev pub array_of : Option (RingBuffer TelemetryReading) → List (Option TelemetryReading)
array_of none = []
array_of (some ring) = to_array ring

unfoldable pub get_latest_reading : JobId → CanonicalTag → TelemetryStore → Option TelemetryReading
unfolding tag_key
get_latest_reading job_id tag s = latest_of (lookup (tag_key job_id tag) s.rings)

unfoldable pub get_history : JobId → CanonicalTag → TelemetryStore → List (Option TelemetryReading)
unfolding tag_key
get_history job_id tag s = array_of (lookup (tag_key job_id tag) s.rings)

unfoldable pub get_latest_alarm : JobId → CanonicalTag → TelemetryStore → Option AlarmEvent
unfolding tag_key
get_latest_alarm job_id tag s = lookup (tag_key job_id tag) s.latest_alarms

unfoldable pub reset : TelemetryStore → TelemetryStore
reset s = record s {
  rings = [];
  latest_alarms = [];
  tag_listeners = [];
  job_listeners = [];
  conn_listeners = [];
  connection_status = disconnected none;
}
