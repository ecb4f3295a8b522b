-- ===== src/Web/LiveSlots/Freshness.antt =====
-- What a slot of the hook shows after a run of events.
use rvf_malinois.Web.Models.{Platform}
use rvf_malinois.Web.LiveSlots.{
  SlotLiveValue, LiveReadingUpdatedPayload, telemetry_reading_accepted, live_reading_updated,
  alarm_event_created, Inbound, live_reading, alarm_created, other, View, receive,
}
use rvf_malinois.Prelude.{◌≡◌, ◌≤◌, String, Time, Option, none, some, List, [], ◌∷◌, lookup}

-- The payload of a reading, under either kind of event.
abbrev pub payload_of : Inbound → Option LiveReadingUpdatedPayload
payload_of (live_reading p) = some p
payload_of (other (some (live_reading_updated p))) = some p
payload_of (other (some telemetry_reading_accepted)) = none
payload_of (other (some (alarm_event_created tenant))) = none
payload_of (other none) = none
payload_of (alarm_created tenant) = none

module _ (js : Platform) (tenant_id : String) (index : List String) where
  -- The events of a run, each with the clock that it is received at.
  unfoldable pub receive_all : List (Inbound × String) → View → View
  unfolding receive
  receive_all [] view = view
  receive_all ((event, now) ∷ events) view =
      receive_all events (receive js tenant_id index event now view)

  -- The timestamp of the reading of an event, if it has one, is a date.
  abbrev pub HasDate : Option LiveReadingUpdatedPayload → Type 0
  HasDate none = Unit {0}
  HasDate (some p) = (t : Time) × (js.parse_date p.timestamp ≡ some t)

  -- The slot `key` shows a reading of the instant `t` or a later one.
  pub record IsAsFresh (key : String) (t : Time) (slots : List (String × SlotLiveValue))
      : Type 0 where
    pub value : SlotLiveValue
    pub at : Time
    pub found : lookup key slots ≡ some value
    pub dated : js.parse_date value.timestamp ≡ some at
    pub fresh : t ≤ at
