-- ===== src/Web/LiveSlots/Tests.antt =====
-- Two readings of a slot, the newer one first.
use rvf_malinois.Web.Models.{Platform}
use rvf_malinois.Web.LiveSlots.{LiveReadingUpdatedPayload, View, slot_index, is_uuid_shaped}
use rvf_malinois.Prelude.{
  leb, ◌==◌, str_eq, ◌≡◌, refl, String, true, false, none, some, if◌then◌else◌, [], ◌∷◌, List,
}

abbrev js : Platform
js = record {
  number_ge = λ a b. leb b a;
  number_le = leb;
  number_eq = λ a b. a == b;
  parse_date = λ text. if str_eq text "noon" then some 12 else some 11;
  to_iso = λ ms. "noon";
}

abbrev unit : String
unit = "aaaaaaaa-0000-4000-8000-000000000001"

abbrev tag : String
tag = "AAAAAAAA-0000-4000-8000-000000000002"

uuids : is_uuid_shaped unit ≡ true
unfolding is_uuid_shaped
uuids = refl

simulator_id : is_uuid_shaped "EMMAD-01" ≡ false
unfolding is_uuid_shaped
simulator_id = refl

abbrev reading_at : String → LiveReadingUpdatedPayload
reading_at at = record {
  tenant_id = "t";
  unit_id = unit;
  canonical_tag_id = tag;
  value = "1";
  engineering_unit = "psi";
  timestamp = at;
  ingestion_timestamp = at;
}

abbrev index : List String
index = slot_index (record { unit_id = unit; canonical_tag_id = tag } ∷ [])

abbrev nothing : View
nothing = record { slots = []; last_event_received_at = none; alarm_events_seen = 0 }
