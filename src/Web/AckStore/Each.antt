-- ===== src/Web/AckStore/Each.antt =====
-- apps/web/lib/alarms/center/ackStore.ts: acknowledging many alarms and acknowledging them one by one.
use rvf_malinois.Prelude.{
  String, Bool, true, false, List, [], ◌∷◌, ◌++◌, ◌≡◌, refl, Bool-cases, inl, inr, sym, ◌∙◌,
}
use rvf_malinois.Web.AlarmCenter.Derive.{has}
use rvf_malinois.Web.AckStore.{
  AckStore, acknowledge_alarm, add_each, replaced_if_changed, acknowledge_many_alarms,
}

unfoldable acknowledge_each : List String → AckStore → AckStore
unfolding acknowledge_alarm
acknowledge_each [] s = s
acknowledge_each (id ∷ ids) s = acknowledge_each ids (acknowledge_alarm id s).0

-- The copy that the loop ends with is the set that the single acknowledgements leave.
add_each-acknowledge_each :
    (ids : List String)
    → (s : AckStore) → (changed : Bool)
    → acknowledge_each ids s ≡ record s { acked = (add_each ids s.acked changed).0 }
unfolding add_each acknowledge_each acknowledge_alarm
add_each-acknowledge_each [] s changed = refl
add_each-acknowledge_each (id ∷ ids) s changed = elim (Bool-cases (has s.acked id)) [
  | inl e ↦ rw e (add_each-acknowledge_each ids s changed)
  | inr e ↦ rw e (add_each-acknowledge_each ids (record s { acked = s.acked ++ (id ∷ []) }) true)
]

-- The flag stays up.
add_each-changed : (ids next : List String) → (add_each ids next true).1 ≡ true
unfolding add_each
add_each-changed [] next = refl
add_each-changed (id ∷ ids) next = elim (Bool-cases (has next id)) [
  | inl e ↦ rw e (add_each-changed ids next)
  | inr e ↦ rw e (add_each-changed ids (next ++ (id ∷ [])))
]

-- While the flag is down, the copy is the set itself.
add_each-unchanged :
    (ids next : List String)
    → (add_each ids next false).1 ≡ false
    → (add_each ids next false).0 ≡ next
unfolding add_each
add_each-unchanged [] next = λ h. refl
add_each-unchanged (id ∷ ids) next = elim (Bool-cases (has next id)) [
  | inl e ↦ rw e (add_each-unchanged ids next)
  | inr e ↦ rw e (λ h. let up = add_each-changed ids (next ++ (id ∷ [])) in cc)
]

-- Where the flag is down only for the same set, the result has the copy as its set.
replaced_if_changed-copy :
    (s : AckStore)
    → (r : List String × Bool) → (r.1 ≡ false → r.0 ≡ s.acked)
    → (replaced_if_changed s r).0 ≡ record s { acked = r.0 }
replaced_if_changed-copy s (next, true) h = refl
replaced_if_changed-copy s (next, false) h = rw (h refl) refl

-- Acknowledging many alarms leaves the store that acknowledging them one by one leaves.
acknowledge_many_alarms-acknowledge_each :
    (ids : List String)
    → (s : AckStore) → (acknowledge_many_alarms ids s).0 ≡ acknowledge_each ids s
unfolding acknowledge_many_alarms
acknowledge_many_alarms-acknowledge_each ids s =
    replaced_if_changed-copy s (add_each ids s.acked false) (add_each-unchanged ids s.acked)
    ∙ sym (add_each-acknowledge_each ids s false)
