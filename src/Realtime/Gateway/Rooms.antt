-- ===== src/Realtime/Gateway/Rooms.antt =====
-- The rooms of a client after it subscribes and leaves.
use rvf_malinois.Prelude.{
  String, Bool, true, false, not, List, [], ◌∷◌, ◌++◌, map, any_by, filter_by, str_eq, str_eq_iff,
  str_eq_refl, str_eq-false_sym, All, All-of_In, All-map, In, here, there, Json, undefined, Result,
  ok, err, ◌≡◌, refl, ap, sym, ◌∙◌, arith, Bool-cases, inl, inr,
}
use rvf_malinois.Realtime.Gateway.{
  tenant_room_name, unit_room_name, parse_subscribe_body, parse_unsubscribe_body, is_fan_out, join,
  leave, join_each, leave_each, on_subscribe, handle_subscribe, handle_unsubscribe,
}
use text.Mathlib.TextEquality.{starts_with_iff}
use text.Mathlib.TextLemmas.{prefix-append}

abbrev pub is_plain : String → Bool
is_plain r = not (is_fan_out r)

abbrev pub AllPlain : List String → Type 0
AllPlain rooms = All (λ r. is_fan_out r ≡ false) rooms

tenant_room_name-fan_out : (id : String) → is_fan_out (tenant_room_name id) ≡ true
unfolding tenant_room_name
tenant_room_name-fan_out id =
    let h = (starts_with_iff (tenant_room_name id) "tenant:").1 (prefix-append "tenant:" id) in
    rw h refl

unit_room_name-fan_out : (id : String) → is_fan_out (unit_room_name id) ≡ true
unfolding unit_room_name
unit_room_name-fan_out id =
    let h = (starts_with_iff (unit_room_name id) "unit:").1 (prefix-append "unit:" id) in
    rw h (ground arith)

append-plain :
    (room : String) (rooms : List String)
    → is_fan_out room ≡ true
    → filter_by is_plain (rooms ++ (room ∷ [])) ≡ filter_by is_plain rooms
append-plain room [] h = rw h refl
append-plain room (r ∷ rooms) h = elim (Bool-cases (is_fan_out r)) [
  | inl e ↦ rw e (append-plain room rooms h)
  | inr e ↦ rw e (ap (λ xs. r ∷ xs) (append-plain room rooms h))
]

join-plain :
    (room : String) (rooms : List String)
    → is_fan_out room ≡ true
    → filter_by is_plain (join room rooms) ≡ filter_by is_plain rooms
join-plain room rooms h = elim (Bool-cases (any_by (λ r. str_eq r room) rooms)) [
  | inl e ↦ rw e refl
  | inr e ↦ rw e (append-plain room rooms h)
]

join_each-plain :
    (ids : List String) (rooms : List String)
    → filter_by is_plain (join_each (map unit_room_name ids) rooms) ≡ filter_by is_plain rooms
join_each-plain [] rooms = refl
join_each-plain (id ∷ ids) rooms =
    join_each-plain ids (join (unit_room_name id) rooms)
    ∙ join-plain (unit_room_name id) rooms (unit_room_name-fan_out id)

on_subscribe-plain :
    (request : Result String (String × List String)) (rooms : List String)
    → filter_by is_plain (on_subscribe request rooms).0 ≡ filter_by is_plain rooms
on_subscribe-plain (err reason) rooms = refl
on_subscribe-plain (ok (tenant_id, ids)) rooms =
    join_each-plain ids (join (tenant_room_name tenant_id) rooms)
    ∙ join-plain (tenant_room_name tenant_id) rooms (tenant_room_name-fan_out tenant_id)

plain_only : (rooms : List String) → AllPlain rooms → filter_by is_plain rooms ≡ rooms
plain_only [] h = refl
plain_only (r ∷ rooms) (e, h) = rw e (ap (λ xs. r ∷ xs) (plain_only rooms h))

leave-plain :
    (room : String) (rooms : List String)
    → is_fan_out room ≡ true
    → filter_by is_plain (leave room rooms) ≡ filter_by is_plain rooms
leave-plain room [] h = refl
leave-plain room (r ∷ rooms) h = elim (Bool-cases (str_eq r room)) [
  | inl e ↦
      let f : is_fan_out r ≡ true = rw ((str_eq_iff r room).0 e) h in
      rw (e, f) (leave-plain room rooms h)
  | inr e ↦ elim (Bool-cases (is_fan_out r)) [
    | inl f ↦ rw (e, f) (leave-plain room rooms h)
    | inr f ↦ rw (e, f) (ap (λ xs. r ∷ xs) (leave-plain room rooms h))
  ]
]

leave_each-plain :
    (named rooms : List String)
    → All (λ r. is_fan_out r ≡ true) named
    → filter_by is_plain (leave_each named rooms) ≡ filter_by is_plain rooms
leave_each-plain [] rooms h = refl
leave_each-plain (r ∷ named) rooms (e, h) =
    leave_each-plain named (leave r rooms) h ∙ leave-plain r rooms e

-- A room that would be left is one of those named.
abbrev Covered : List String → String → Type 0
Covered named r = (is_fan_out r ≡ true) → any_by (λ x. str_eq x r) named ≡ true

leave-Covered :
    (room : String) (named rooms : List String)
    → All (Covered (room ∷ named)) rooms
    → All (Covered named) (leave room rooms)
leave-Covered room named [] h = tt
leave-Covered room named (r ∷ rooms) (c, h) = elim (Bool-cases (str_eq r room)) [
  | inl e ↦ rw e (leave-Covered room named rooms h)
  | inr e ↦ rw e ((λ f. rw (str_eq-false_sym r room e) at (c f)), leave-Covered room named rooms h)
]

leave_each-AllPlain :
    (named rooms : List String) → All (Covered named) rooms → AllPlain (leave_each named rooms)
leave_each-AllPlain [] rooms h =
    All-map rooms
      (λ r c. elim (Bool-cases (is_fan_out r)) [ inl e ↦ let d = c e in cc | inr e ↦ e ]) h
leave_each-AllPlain (room ∷ named) rooms h =
    leave_each-AllPlain named (leave room rooms) (leave-Covered room named rooms h)

fan_out-All : (rooms : List String) → All (λ r. is_fan_out r ≡ true) (filter_by is_fan_out rooms)
fan_out-All [] = tt
fan_out-All (r ∷ rooms) = elim (Bool-cases (is_fan_out r)) [
  | inl e ↦ rw e (e, fan_out-All rooms)
  | inr e ↦ rw e (fan_out-All rooms)
]

fan_out-Covered :
    {r : String} {rooms : List String} → In r rooms → Covered (filter_by is_fan_out rooms) r
fan_out-Covered {r} here e = rw e (rw (str_eq_refl r) refl)
fan_out-Covered {r} (there {x} {xs} i) e =
    let later : any_by (λ y. str_eq y r) (filter_by is_fan_out xs) ≡ true = fan_out-Covered i e in
    elim (Bool-cases (is_fan_out x)) [ inl f ↦ rw f (rw later (ground arith)) | inr f ↦ rw f later ]

-- A client without fan-out rooms that subscribes with any body, one that is refused included, and
-- then unsubscribes without a body, is in the rooms it was in before, in the same order.
handle_unsubscribe-handle_subscribe :
    (body : Json) (rooms : List String)
    → AllPlain rooms
    → (handle_unsubscribe undefined (handle_subscribe body rooms).0).0 ≡ rooms
unfolding handle_unsubscribe handle_subscribe parse_unsubscribe_body
handle_unsubscribe-handle_subscribe body rooms plain =
    let mid : List String = (on_subscribe (parse_subscribe_body body) rooms).0 in
    let named : List String = filter_by is_fan_out mid in
    let left : List String = leave_each named mid in
    sym (
      plain_only left
        (leave_each-AllPlain named mid (All-of_In (Covered named) mid (λ r i. fan_out-Covered i))))
    ∙ leave_each-plain named mid (fan_out-All mid)
    ∙ on_subscribe-plain (parse_subscribe_body body) rooms
    ∙ plain_only rooms plain
