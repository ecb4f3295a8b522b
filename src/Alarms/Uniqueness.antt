-- ===== src/Alarms/Uniqueness.antt =====
-- At most one active event of a unit, a tag and a rule.
use rvf_malinois.Store.Rows.{AlarmEvent}
use rvf_malinois.Alarms.Evaluation.{is_active_event_of}
use rvf_malinois.Prelude.{ℕ, ◌≤◌, Uuid, [], ◌∷◌, List, if◌then◌else◌, suc}
use rvf_malinois.Store.Effects.{World}

abbrev pub active_count : Uuid → Uuid → Uuid → List AlarmEvent → ℕ
active_count unit tag rule [] = 0
active_count unit tag rule (e ∷ es) =
    if is_active_event_of unit tag rule e
    then suc (active_count unit tag rule es)
    else active_count unit tag rule es

-- No unit, tag and rule has two active events.
pub record OneActive (w : World) : Type 0 where
  pub at_most_one : (unit tag rule : Uuid) → active_count unit tag rule w.db.events ≤ 1
