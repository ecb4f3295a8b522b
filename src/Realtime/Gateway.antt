-- ===== src/Realtime/Gateway.antt =====
-- apps/backend/src/realtime/realtime.gateway.ts. The state of a client is the list of its rooms, in
-- the order in which it joined them; its own room is the first.
pub mod Rooms
use rvf_malinois.Prelude.{
  Option, none, some, String, Bool, true, false, not, ◌||◌, List, [], ◌∷◌, ◌++◌, map, any_by,
  filter_by, if◌then◌else◌, str_eq, Json, Jsons, Fields, undefined, null, bool, num, str, arr, obj,
  nil, cons, end, get, Result, ok, err,
}
use Prim.Native.String.{◌++◌ as ◌+++◌}
use text.Mathlib.Text.{starts_with}

unfoldable pub tenant_room_name : String → String
tenant_room_name tenant_id = "tenant:" +++ tenant_id

unfoldable pub unit_room_name : String → String
unit_room_name unit_id = "unit:" +++ unit_id

-- `typeof body === 'object'`; an array is one, and has none of the fields.
abbrev pub as_object : Json → Option Fields
as_object (obj fields) = some fields
as_object (arr xs) = some end
as_object undefined = none
as_object null = none
as_object (bool b) = none
as_object (num n) = none
as_object (str s) = none

-- `typeof x !== 'string' || x.length === 0`, turned round
abbrev pub full_text : Json → Option String
full_text (str s) = if str_eq s "" then none else some s
full_text undefined = none
full_text null = none
full_text (bool b) = none
full_text (num n) = none
full_text (arr xs) = none
full_text (obj fields) = none

abbrev pub push_text : Option String → Result String (List String) → Result String (List String)
push_text none rest = err "unitIds must contain only non-empty strings"
push_text (some u) (err reason) = err reason
push_text (some u) (ok us) = ok (u ∷ us)

-- The loop over `unitIds`.
unfoldable pub unit_texts : Jsons → Result String (List String)
unit_texts nil = ok []
unit_texts (cons x xs) = push_text (full_text x) (unit_texts xs)

unfoldable pub unit_ids_of : Json → Result String (List String)
unfolding unit_texts
unit_ids_of undefined = ok []
unit_ids_of (arr xs) = unit_texts xs
unit_ids_of null = err "unitIds must be an array of strings when present"
unit_ids_of (bool b) = err "unitIds must be an array of strings when present"
unit_ids_of (num n) = err "unitIds must be an array of strings when present"
unit_ids_of (str s) = err "unitIds must be an array of strings when present"
unit_ids_of (obj fields) = err "unitIds must be an array of strings when present"

abbrev pub with_tenant :
    Option String → Result String (List String) → Result String (String × List String)
with_tenant none units = err "tenantId must be a non-empty string"
with_tenant (some tenant_id) (err reason) = err reason
with_tenant (some tenant_id) (ok unit_ids) = ok (tenant_id, unit_ids)

abbrev pub subscribe_fields : Option Fields → Result String (String × List String)
subscribe_fields none = err "body must be a non-null object"
subscribe_fields (some f) =
    with_tenant (full_text (get "tenantId" f)) (unit_ids_of (get "unitIds" f))

unfoldable pub parse_subscribe_body : Json → Result String (String × List String)
unfolding unit_ids_of
parse_subscribe_body body = subscribe_fields (as_object body)

pub record UnsubscribeRequest : Type 0 where
  pub tenant_id : Option String
  pub unit_ids : List String
  pub leave_all : Bool

abbrev pub everything : UnsubscribeRequest
everything = record { tenant_id = none; unit_ids = []; leave_all = true }

abbrev pub with_units :
    Option String → Result String (List String) → Result String UnsubscribeRequest
with_units tenant_id (err reason) = err reason
with_units tenant_id (ok unit_ids) =
    ok (record { tenant_id = tenant_id; unit_ids = unit_ids; leave_all = false })

abbrev pub tenant_given : Option String → Json → Result String UnsubscribeRequest
tenant_given none units = err "tenantId must be a non-empty string when present"
tenant_given (some tenant_id) units = with_units (some tenant_id) (unit_ids_of units)

abbrev pub is_undefined : Json → Bool
is_undefined undefined = true
is_undefined null = false
is_undefined (bool b) = false
is_undefined (num n) = false
is_undefined (str s) = false
is_undefined (arr xs) = false
is_undefined (obj fields) = false

unfoldable pub unsubscribe_fields : Json → Json → Result String UnsubscribeRequest
unfolding unit_ids_of
unsubscribe_fields tenant units =
    if is_undefined tenant
    then (if is_undefined units then ok everything else with_units none (unit_ids_of units))
    else tenant_given (full_text tenant) units

unfoldable pub parse_unsubscribe_body : Json → Result String UnsubscribeRequest
unfolding unsubscribe_fields
parse_unsubscribe_body undefined = ok everything
parse_unsubscribe_body null = ok everything
parse_unsubscribe_body (obj f) = unsubscribe_fields (get "tenantId" f) (get "unitIds" f)
parse_unsubscribe_body (arr xs) = unsubscribe_fields undefined undefined
parse_unsubscribe_body (bool b) = err "body must be an object or omitted"
parse_unsubscribe_body (num n) = err "body must be an object or omitted"
parse_unsubscribe_body (str s) = err "body must be an object or omitted"

pub data Acknowledgement : Type 0 where
  subscribed : String → List String → Acknowledgement
  unsubscribed : List String → Acknowledgement
  subscribe_error : String → Acknowledgement

-- `client.join(room)` and `client.leave(room)` of a set of rooms
abbrev pub join : String → List String → List String
join room rooms = if any_by (λ r. str_eq r room) rooms then rooms else rooms ++ (room ∷ [])

abbrev pub leave : String → List String → List String
leave room rooms = filter_by (λ r. not (str_eq r room)) rooms

abbrev pub join_each : List String → List String → List String
join_each [] rooms = rooms
join_each (room ∷ more) rooms = join_each more (join room rooms)

abbrev pub leave_each : List String → List String → List String
leave_each [] rooms = rooms
leave_each (room ∷ more) rooms = leave_each more (leave room rooms)

abbrev pub on_subscribe :
    Result String (String × List String) → List String → List String × Acknowledgement
on_subscribe (err reason) rooms = (rooms, subscribe_error reason)
on_subscribe (ok (tenant_id, unit_ids)) rooms = (
  join_each (map unit_room_name unit_ids) (join (tenant_room_name tenant_id) rooms),
  subscribed (tenant_room_name tenant_id) (map unit_room_name unit_ids),
)

unfoldable pub handle_subscribe : Json → List String → List String × Acknowledgement
unfolding parse_subscribe_body tenant_room_name unit_room_name
handle_subscribe body rooms = on_subscribe (parse_subscribe_body body) rooms

-- `r.startsWith('tenant:') || r.startsWith('unit:')`
abbrev pub is_fan_out : String → Bool
is_fan_out r = starts_with r "tenant:" || starts_with r "unit:"

-- The rooms that a request names.
abbrev pub named_rooms : Option String → List String → List String
named_rooms none unit_ids = map unit_room_name unit_ids
named_rooms (some tenant_id) unit_ids = tenant_room_name tenant_id ∷ map unit_room_name unit_ids

abbrev pub rooms_to_leave : UnsubscribeRequest → List String → List String
rooms_to_leave request rooms =
    if request.leave_all
    then filter_by is_fan_out rooms
    else named_rooms request.tenant_id request.unit_ids

abbrev pub on_unsubscribe :
    Result String UnsubscribeRequest → List String → List String × Acknowledgement
on_unsubscribe (err reason) rooms = (rooms, subscribe_error reason)
on_unsubscribe (ok request) rooms =
    (leave_each (rooms_to_leave request rooms) rooms, unsubscribed (rooms_to_leave request rooms))

unfoldable pub handle_unsubscribe : Json → List String → List String × Acknowledgement
unfolding parse_unsubscribe_body tenant_room_name unit_room_name
handle_unsubscribe body rooms = on_unsubscribe (parse_unsubscribe_body body) rooms
