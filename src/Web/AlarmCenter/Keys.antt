-- ===== src/Web/AlarmCenter/Keys.antt =====
-- The keys of the findings and of the open events.
use rvf_malinois.Prelude.{
  String, List, [], ◌∷◌, Time, Bool, false, not, ◌&&◌, ◌≡◌, arith, refl, Bool-cases, inl, inr,
  assign, Unique, assign-Unique, Entries, assign-Entries, str_eq, is_some,
}
use rvf_malinois.Web.Models.{Platform, CanonicalTag, ActiveJobSnapshot, FrozenSensorMapping}
use rvf_malinois.Web.AlarmCenter.{LiveAlarmEvent}
use rvf_malinois.Web.AlarmCenter.Derive.{is_cleared, open_by_tag}
use rvf_malinois.Web.AlarmCenter.Findings.{
  PerTagFinding, center_key, evaluate_one, on_silence, evaluate_heard, findings_for_job,
  findings_from,
}
use rvf_malinois.Web.TelemetryStore.{TelemetryStore}

abbrev pub key_of : LiveAlarmEvent → String
key_of e = center_key e.job_id e.tag

abbrev pub finding_key : PerTagFinding → String
finding_key f = center_key f.job.job_id f.tag

-- An event of the tag that is not cleared.
abbrev pub is_open_at : String → LiveAlarmEvent → Bool
is_open_at key e = not (is_cleared e.lifecycle) && str_eq (key_of e) key

-- The finding of a tag with something wrong.
abbrev pub is_alarming : String → String × PerTagFinding → Bool
is_alarming key e = str_eq e.0 key && is_some e.1.evaluated_state

-- A finding stands under its own key.
abbrev pub Own : String → PerTagFinding → Type 0
Own k f = k ≡ finding_key f

module _ (js : Platform) (store : TelemetryStore) where
  evaluate_one-Own :
      (job : ActiveJobSnapshot) (tag : CanonicalTag) (now : Time)
      → center_key job.job_id tag ≡ finding_key (evaluate_one js store job tag now)
  unfolding evaluate_one on_silence evaluate_heard
  evaluate_one-Own job tag now = ground arith

  findings_for_job-Own :
      (job : ActiveJobSnapshot) (now : Time) (ms : List FrozenSensorMapping)
      (out : List (String × PerTagFinding))
      → Entries Own out × Unique out
      → Entries Own (findings_for_job js store job now ms out)
        × Unique (findings_for_job js store job now ms out)
  unfolding findings_for_job
  findings_for_job-Own job now [] out h = h
  findings_for_job-Own job now (m ∷ ms) out (h, u) =
      let key = center_key job.job_id m.canonical_tag in
      let f = evaluate_one js store job m.canonical_tag now in
      findings_for_job-Own job now ms (assign key f out) (
        assign-Entries Own key f out (evaluate_one-Own job m.canonical_tag now) h,
        assign-Unique key f out u,
      )

  pub findings_from-Own :
      (jobs : List ActiveJobSnapshot) (now : Time) (out : List (String × PerTagFinding))
      → Entries Own out × Unique out
      → Entries Own (findings_from js store jobs now out)
        × Unique (findings_from js store jobs now out)
  unfolding findings_from
  findings_from-Own [] now out h = h
  findings_from-Own (job ∷ jobs) now out h =
      findings_from-Own jobs now (findings_for_job js store job now job.snapshot.sensors out)
        (findings_for_job-Own job now job.snapshot.sensors out h)

-- An open event stands under its own key.
abbrev pub OpenAt : String → LiveAlarmEvent → Type 0
OpenAt k e = (k ≡ key_of e) × (is_cleared e.lifecycle ≡ false)

pub open_by_tag-OpenAt :
    (es : List LiveAlarmEvent) (out : List (String × LiveAlarmEvent))
    → Entries OpenAt out
    → Entries OpenAt (open_by_tag es out)
unfolding open_by_tag
open_by_tag-OpenAt [] out h = h
open_by_tag-OpenAt (e ∷ es) out h = elim (Bool-cases (is_cleared e.lifecycle)) [
  | inl c ↦ rw c (open_by_tag-OpenAt es out h)
  | inr c ↦ rw c (
      open_by_tag-OpenAt es (assign (key_of e) e out)
        (assign-Entries OpenAt (key_of e) e out (refl, c) h))
]
