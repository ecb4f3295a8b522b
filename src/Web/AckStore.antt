-- ===== src/Web/AckStore.antt =====
-- apps/web/lib/alarms/center/ackStore.ts. A set of ids is the list of its members in the order of
-- their insertion, and an operation also returns the listeners that it calls.
pub mod Each
use rvf_malinois.Prelude.{String, Bool, true, false, List, [], ◌∷◌, ◌++◌, if◌then◌else◌}
use rvf_malinois.Web.TelemetryStore.{Listener, add, delete}
use rvf_malinois.Web.AlarmCenter.Derive.{has}

pub record AckStore : Type 0 where
  pub acked : List String
  pub listeners : List Listener

unfoldable pub acknowledge_alarm : String → AckStore → AckStore × List Listener
acknowledge_alarm id s =
    if has s.acked id then (s, []) else (record s { acked = s.acked ++ (id ∷ []) }, s.listeners)

-- The loop over `ids`, on the copy `next` and the flag `changed`.
unfoldable pub add_each : List String → List String → Bool → List String × Bool
add_each [] next changed = (next, changed)
add_each (id ∷ ids) next changed =
    if has next id then add_each ids next changed else add_each ids (next ++ (id ∷ [])) true

abbrev pub replaced_if_changed : AckStore → List String × Bool → AckStore × List Listener
replaced_if_changed s (next, false) = (s, [])
replaced_if_changed s (next, true) = (record s { acked = next }, s.listeners)

unfoldable pub acknowledge_many_alarms : List String → AckStore → AckStore × List Listener
unfolding add_each
acknowledge_many_alarms ids s = replaced_if_changed s (add_each ids s.acked false)

unfoldable pub is_alarm_acknowledged : String → AckStore → Bool
is_alarm_acknowledged id s = has s.acked id

unfoldable pub subscribe_acked_ids : Listener → AckStore → AckStore
subscribe_acked_ids l s = record s { listeners = add l s.listeners }

unfoldable pub unsubscribe_acked_ids : Listener → AckStore → AckStore
unsubscribe_acked_ids l s = record s { listeners = delete l s.listeners }

unfoldable pub reset_ack_store : AckStore → AckStore
reset_ack_store s = record s { acked = [] }
