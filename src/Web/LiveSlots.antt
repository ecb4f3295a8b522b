-- ===== src/Web/LiveSlots.antt =====
-- apps/web/lib/hooks/useOperationsRealtimeF4.ts: what the hook keeps of the realtime events, and what
-- it tells of the connection.
mod Tests
pub mod Freshness
use Prim.Native.Char.{code}
use Prim.Native.String.{◌++◌ as ◌+++◌}
use rvf_malinois.Web.Models.{Platform}
use rvf_malinois.Web.AlarmCenter.Derive.{has}
use rvf_malinois.Prelude.{
  ℕ, zero, suc, ◌+◌, ◌==◌, leb, String, str_eq, Time, Bool, true, false, not, ◌&&◌, ◌||◌,
  if◌then◌else◌, Option, none, some, List, [], ◌∷◌, lookup, assign,
}

-- `[0-9a-f]` with the flag `i`
abbrev pub is_hex : ℕ → Bool
is_hex c = (leb b'0' c && leb c b'9') || (leb b'a' c && leb c b'f') || (leb b'A' c && leb c b'F')

-- What follows so many hexadecimal digits.
abbrev pub after_hex : ℕ → String → Option String
after_hex zero s = some s
after_hex (suc n) String.[] = none
after_hex (suc n) (String.◌∷◌ c s) = if is_hex (code c) then after_hex n s else none

abbrev pub after_dash : Option String → Option String
after_dash none = none
after_dash (some String.[]) = none
after_dash (some (String.◌∷◌ c s)) = if code c == b'-' then some s else none

abbrev pub after_group : ℕ → Option String → Option String
after_group n none = none
after_group n (some s) = after_hex n s

abbrev pub is_end : Option String → Bool
is_end none = false
is_end (some s) = str_eq s ""

-- `UUID_RE.test(value)`
unfoldable pub is_uuid_shaped : String → Bool
is_uuid_shaped s =
    let first = after_dash (after_hex 8 s) in
    let second = after_dash (after_group 4 first) in
    let third = after_dash (after_group 4 second) in
    let fourth = after_dash (after_group 4 third) in is_end (after_group 12 fourth)

pub record TrackedSlot : Type 0 where
  pub unit_id : String
  pub canonical_tag_id : String

unfoldable pub slot_key : String → String → String
slot_key unit_id canonical_tag_id = unit_id +++ ("::" +++ canonical_tag_id)

pub record SlotLiveValue : Type 0 where
  pub value : String
  pub engineering_unit : String
  pub timestamp : String
  pub ingestion_timestamp : String
  pub received_at : String

-- The fields of the payload that the hook reads.
pub record LiveReadingUpdatedPayload : Type 0 where
  pub tenant_id : String
  pub unit_id : String
  pub canonical_tag_id : String
  pub value : String
  pub engineering_unit : String
  pub timestamp : String
  pub ingestion_timestamp : String

-- An event of one of the two names, with the tenant of an alarm's payload; or an event of another name
-- whose first argument is an envelope, or none.
pub data F4Envelope : Type 0 where
  telemetry_reading_accepted : F4Envelope
  live_reading_updated : LiveReadingUpdatedPayload → F4Envelope
  alarm_event_created : String → F4Envelope

pub data Inbound : Type 0 where
  live_reading : LiveReadingUpdatedPayload → Inbound
  alarm_created : String → Inbound
  other : Option F4Envelope → Inbound

-- The three states of the hook.
pub record View : Type 0 where
  pub slots : List (String × SlotLiveValue)
  pub last_event_received_at : Option String
  pub alarm_events_seen : ℕ

abbrev pub is_tracked : TrackedSlot → Bool
is_tracked s = is_uuid_shaped s.unit_id && is_uuid_shaped s.canonical_tag_id

-- A set of keys is the list of its members.
unfoldable pub slot_index : List TrackedSlot → List String
unfolding slot_key is_uuid_shaped
slot_index [] = []
slot_index (s ∷ ss) =
    let rest = slot_index ss in
    if is_tracked s then slot_key s.unit_id s.canonical_tag_id ∷ rest else rest

-- `a >= b` on numbers that are NaN where the text is no date
abbrev pub at_or_after : Option Time → Option Time → Bool
at_or_after (some a) (some b) = leb b a
at_or_after _ _ = false

abbrev pub slot_of : LiveReadingUpdatedPayload → String → SlotLiveValue
slot_of p now = record {
  value = p.value;
  engineering_unit = p.engineering_unit;
  timestamp = p.timestamp;
  ingestion_timestamp = p.ingestion_timestamp;
  received_at = now;
}

module _ (js : Platform) (tenant_id : String) (index : List String) where
  -- `existing && Date.parse(existing.timestamp) >= Date.parse(p.timestamp)`
  abbrev pub is_as_recent : Option SlotLiveValue → LiveReadingUpdatedPayload → Bool
  is_as_recent none p = false
  is_as_recent (some v) p = at_or_after (js.parse_date v.timestamp) (js.parse_date p.timestamp)

  -- The updater of `setSlots`.
  unfoldable pub set_slot :
      String
      → LiveReadingUpdatedPayload
      → String
      → List (String × SlotLiveValue)
      → List (String × SlotLiveValue)
  set_slot key p now slots =
      if is_as_recent (lookup key slots) p then slots else assign key (slot_of p now) slots

  unfoldable pub handle_live_reading : LiveReadingUpdatedPayload → String → View → View
  unfolding set_slot slot_key
  handle_live_reading p now view =
      let key = slot_key p.unit_id p.canonical_tag_id in
      if str_eq p.tenant_id tenant_id && has index key
      then (record view {
        slots = set_slot key p now view.slots;
        last_event_received_at = some now;
      })
      else view

  unfoldable pub handle_alarm_created : String → String → View → View
  handle_alarm_created tenant now view =
      if str_eq tenant tenant_id
      then (record view {
        alarm_events_seen = view.alarm_events_seen + 1;
        last_event_received_at = some now;
      })
      else view

  -- The listeners of the two names, and `onAnyHandler`. `now` is the clock as an ISO text.
  unfoldable pub receive : Inbound → String → View → View
  unfolding handle_live_reading handle_alarm_created
  receive (live_reading p) now view = handle_live_reading p now view
  receive (alarm_created tenant) now view = handle_alarm_created tenant now view
  receive (other none) now view = view
  receive (other (some (live_reading_updated p))) now view = handle_live_reading p now view
  receive (other (some (alarm_event_created tenant))) now view =
      handle_alarm_created tenant now view
  receive (other (some telemetry_reading_accepted)) now view = view

-- The state of the provider.
pub data ProviderState : Type 0 where
  connecting : ProviderState
  connected : String → ProviderState
  reconnecting : ℕ → Option String → ProviderState
  disconnected : Option String → ProviderState

pub data OperationsRealtimeConnection : Type 0 where
  disabled connecting : OperationsRealtimeConnection
  connected : String → OperationsRealtimeConnection
  reconnecting : ℕ → Option String → OperationsRealtimeConnection
  disconnected : Option String → OperationsRealtimeConnection

pub data OperationsRealtimeSource : Type 0 where
  mock rest rest_and_realtime : OperationsRealtimeSource

-- `(forceEnabled ?? true) && isApiSource() && isUuidShaped(tenantId)`
unfoldable pub is_allowed : Option Bool → Bool → String → Bool
unfolding is_uuid_shaped
is_allowed none is_api_source tenant_id = is_api_source && is_uuid_shaped tenant_id
is_allowed (some force) is_api_source tenant_id = force && is_api_source && is_uuid_shaped tenant_id

abbrev pub connection_when_allowed : ProviderState → OperationsRealtimeConnection
connection_when_allowed ProviderState.connecting = OperationsRealtimeConnection.connecting
connection_when_allowed (ProviderState.connected since) =
    OperationsRealtimeConnection.connected since
connection_when_allowed (ProviderState.reconnecting attempt last) =
    OperationsRealtimeConnection.reconnecting attempt last
connection_when_allowed (ProviderState.disconnected last) =
    OperationsRealtimeConnection.disconnected last

unfoldable pub connection_of : Bool → ProviderState → OperationsRealtimeConnection
connection_of false state = OperationsRealtimeConnection.disabled
connection_of true state = connection_when_allowed state

abbrev pub is_connected : OperationsRealtimeConnection → Bool
is_connected (OperationsRealtimeConnection.connected since) = true
is_connected _ = false

unfoldable pub source_of : Bool → ProviderState → OperationsRealtimeSource
unfolding connection_of
source_of allowed state =
    if allowed
    then (if is_connected (connection_of allowed state) then rest_and_realtime else rest)
    else mock

-- The effect on a new provider state: the reference `wasReconnectingRef`, and the query keys that are
-- invalidated.
unfoldable pub on_provider_state : Bool → ProviderState → Bool → Bool × List String
on_provider_state false state was_reconnecting = (was_reconnecting, [])
on_provider_state true (ProviderState.reconnecting attempt last) was_reconnecting = (true, [])
on_provider_state true (ProviderState.connected since) was_reconnecting =
    if was_reconnecting then (false, "f4-trends" ∷ ("f4-latest" ∷ [])) else (was_reconnecting, [])
on_provider_state true ProviderState.connecting was_reconnecting = (was_reconnecting, [])
on_provider_state true (ProviderState.disconnected last) was_reconnecting = (was_reconnecting, [])
