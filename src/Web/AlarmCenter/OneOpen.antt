-- ===== src/Web/AlarmCenter/OneOpen.antt =====
-- A snapshot has at most one open event for a job and a tag.
use rvf_malinois.Prelude.{
  zero, suc, Option, none, some, String, List, [], ◌∷◌, ◌++◌, Time, Bool, true, false, ◌&&◌,
  if◌then◌else◌, ℕ, ◌≤◌, ◌≡◌, arith, refl, ap, sym, ◌∙◌, Bool-cases, inl, inr, lookup, Entries,
  lookup-Entries, count_by, count_by-append, count_by-sort_by, filter_by, sort_by, take, str_eq,
  has_name, is_some,
}
use rvf_malinois.Web.Models.{Platform, CanonicalTag, ActiveJobSnapshot}
use rvf_malinois.Web.AlarmCenter.{EvaluatedState, LiveAlarmEvent, AlarmCenterSnapshot}
use rvf_malinois.Web.AlarmCenter.Derive.{
  next_lifecycle, same_state, is_cleared, build_new_event, clear_event, merge_active_event,
  on_prior, on_finding, on_findings, open_by_tag, dropped, sort_for_display, trimmed_carry,
  cleared_later, displayed_before,
}
use rvf_malinois.Web.AlarmCenter.Findings.{PerTagFinding, findings_from, findings_for_jobs}
use rvf_malinois.Web.AlarmCenter.Tick.{next_events, prev_events, derive_alarm_center_snapshot}
use rvf_malinois.Web.TelemetryStore.{TelemetryStore}
use rvf_malinois.Web.AlarmCenter.Keys.{
  key_of, finding_key, is_open_at, is_alarming, Own, findings_from-Own, OpenAt, open_by_tag-OpenAt,
}

if_both {ℓ κ} :
    {A : Type ℓ} (P : A → Type κ) (b : Bool) {x y : A} → P x → P y → P (if b then x else y)
if_both P true p q = p
if_both P false p q = q

abbrev one_if : Bool → ℕ
one_if b = if b then 1 else 0

if_alarming : (b : Bool) → one_if b ≡ one_if (b && true)
if_alarming true = refl
if_alarming false = refl

alarming-le :
    (key : String) (fs : List (String × PerTagFinding))
    → count_by (is_alarming key) fs ≤ count_by (has_name key) fs
alarming-le key [] = omega arith
alarming-le key ((k, f) ∷ rest) = ground (arith, alarming-le key rest)

one_event :
    (key k : String) (e : LiveAlarmEvent)
    → key_of e ≡ k
    → is_cleared e.lifecycle ≡ false
    → count_by (is_open_at key) (e ∷ []) ≡ (if str_eq k key then 1 else 0)
one_event key k e h o = elim (Bool-cases (str_eq (key_of e) key)) [
  | inl t ↦ let q : str_eq k key ≡ true = rw (← h) t in rw q (ground arith)
  | inr t ↦ let q : str_eq k key ≡ false = rw (← h) t in rw q (ground arith)
]

no_event :
    (key : String) (now_iso : String) (e : LiveAlarmEvent) (es : List LiveAlarmEvent)
    → count_by (is_open_at key) (clear_event now_iso e ∷ es) ≡ count_by (is_open_at key) es
unfolding clear_event
no_event key now_iso e es = refl

module _ (js : Platform) (now_iso : String) (acked_ids : List String) where
  merge_active_event-key :
      (p : LiveAlarmEvent) (f : PerTagFinding)
      → key_of (merge_active_event js now_iso acked_ids p f) ≡ key_of p
  unfolding merge_active_event
  merge_active_event-key p f = if_both (λ e. key_of e ≡ key_of p) _ refl refl

  merge_active_event-open :
      (p : LiveAlarmEvent) (f : PerTagFinding)
      → is_cleared p.lifecycle ≡ false
      → is_cleared (merge_active_event js now_iso acked_ids p f).lifecycle ≡ false
  unfolding merge_active_event next_lifecycle
  merge_active_event-open p f o =
      let next : is_cleared (next_lifecycle js now_iso acked_ids p) ≡ false = ground arith in
      if_both (λ (e : LiveAlarmEvent). is_cleared e.lifecycle ≡ false) _ o next

  module _ (labeller : CanonicalTag → String) (key : String) where
    build_new_event-key :
        (f : PerTagFinding) (st : EvaluatedState)
        → key_of (build_new_event now_iso acked_ids f st labeller) ≡ finding_key f
    unfolding build_new_event
    build_new_event-key f st = refl

    build_new_event-open :
        (f : PerTagFinding) (st : EvaluatedState)
        → is_cleared (build_new_event now_iso acked_ids f st labeller).lifecycle ≡ false
    unfolding build_new_event
    build_new_event-open f st = ground arith

    on_prior-count :
        (f : PerTagFinding) (st : EvaluatedState) (p : LiveAlarmEvent)
        → key_of p ≡ finding_key f
        → is_cleared p.lifecycle ≡ false
        → count_by (is_open_at key) (on_prior js now_iso acked_ids labeller f st p)
          ≡ (if str_eq (finding_key f) key then 1 else 0)
    unfolding on_prior
    on_prior-count f st p h o =
        let fresh : LiveAlarmEvent = build_new_event now_iso acked_ids f st labeller in
        let closed : count_by (is_open_at key) (clear_event now_iso p ∷ (fresh ∷ []))
            ≡ (if str_eq (finding_key f) key then 1 else 0) =
          rw (no_event key now_iso p (fresh ∷ [])) (
            one_event key (finding_key f) fresh (build_new_event-key f st)
              (build_new_event-open f st)) in
        if_both (λ es. count_by (is_open_at key) es ≡ (if str_eq (finding_key f) key then 1 else 0))
          (same_state p.evaluated_state st)
          (one_event key (finding_key f) (merge_active_event js now_iso acked_ids p f)
            (merge_active_event-key p f ∙ h) (merge_active_event-open p f o))
          closed

    on_finding-count :
        (f : PerTagFinding) (st : Option EvaluatedState) (prior : Option LiveAlarmEvent)
        → ((p : LiveAlarmEvent) → prior ≡ some p → OpenAt (finding_key f) p)
        → count_by (is_open_at key) (on_finding js now_iso acked_ids labeller f st prior)
          ≡ (if str_eq (finding_key f) key && is_some st then 1 else 0)
    unfolding on_finding
    on_finding-count f none none h = ground arith
    on_finding-count f none (some p) h = rw (no_event key now_iso p []) (ground arith)
    on_finding-count f (some st) none h =
        one_event key (finding_key f) (build_new_event now_iso acked_ids f st labeller)
          (build_new_event-key f st) (build_new_event-open f st)
        ∙ if_alarming (str_eq (finding_key f) key)
    on_finding-count f (some st) (some p) h =
        let (own, o) = h p refl in
        on_prior-count f st p (sym own) o ∙ if_alarming (str_eq (finding_key f) key)

    on_findings-count :
        (prior : List (String × LiveAlarmEvent)) (fs : List (String × PerTagFinding))
        → Entries OpenAt prior
        → Entries Own fs
        → count_by (is_open_at key) (on_findings js now_iso acked_ids labeller prior fs)
          ≡ count_by (is_alarming key) fs
    unfolding on_findings
    on_findings-count prior [] h own = refl
    on_findings-count prior ((k, f) ∷ rest) h (own, h') =
        let here =
          on_finding-count f f.evaluated_state (lookup (finding_key f) prior)
            (λ p e. lookup-Entries OpenAt (finding_key f) prior p h e) in
        let rest' = on_findings-count prior rest h h' in
        let sum =
          count_by-append (is_open_at key)
            (on_finding js now_iso acked_ids labeller f f.evaluated_state
              (lookup (finding_key f) prior))
            (on_findings js now_iso acked_ids labeller prior rest) in
        let test : str_eq (finding_key f) key ≡ str_eq k key = ap (λ x. str_eq x key) (sym own) in
        elim (Bool-cases (str_eq k key && is_some f.evaluated_state)) [
          | inl b ↦ rw b (omega (arith, sum, rest', rw (test, b) at here))
          | inr b ↦ rw b (omega (arith, sum, rest', rw (test, b) at here))
        ]

dropped-count :
    (key now_iso : String) (fs : List (String × PerTagFinding))
    (prior : List (String × LiveAlarmEvent))
    → count_by (is_open_at key) (dropped now_iso fs prior) ≡ 0
unfolding dropped
dropped-count key now_iso fs [] = refl
dropped-count key now_iso fs ((k, p) ∷ rest) =
    if_both (λ es. count_by (is_open_at key) es ≡ 0) (is_some (lookup k fs))
      (dropped-count key now_iso fs rest)
      (no_event key now_iso p (dropped now_iso fs rest) ∙ dropped-count key now_iso fs rest)

take-count {ℓ} :
    {A : Type ℓ} (p : A → Bool) (n : ℕ) (xs : List A)
    → count_by p xs ≡ 0
    → count_by p (take n xs) ≡ 0
take-count p zero xs h = refl
take-count p (suc n) [] h = refl
take-count p (suc n) (x ∷ xs) h = elim (Bool-cases (p x)) [
  | inl e ↦ let q : suc (count_by p xs) ≡ 0 = rw e at h in absurd (omega arith)
  | inr e ↦ rw e (take-count p n xs (rw e at h))
]

cleared-count :
    (key : String) (es : List LiveAlarmEvent)
    → count_by (is_open_at key) (filter_by (λ e. is_cleared e.lifecycle) es) ≡ 0
cleared-count key [] = refl
cleared-count key (e ∷ es) = elim (Bool-cases (is_cleared e.lifecycle)) [
  | inl c ↦ rw c (rw c (cleared-count key es))
  | inr c ↦ rw c (cleared-count key es)
]

trimmed_carry-count :
    (js : Platform) (key : String) (n : ℕ) (es : List LiveAlarmEvent)
    → count_by (is_open_at key) (trimmed_carry js n es) ≡ 0
unfolding trimmed_carry
trimmed_carry-count js key n es =
    take-count (is_open_at key) n
      (sort_by (cleared_later js) (filter_by (λ e. is_cleared e.lifecycle) es))
      (count_by-sort_by (cleared_later js) (is_open_at key)
          (filter_by (λ e. is_cleared e.lifecycle) es)
        ∙ cleared-count key es)

module _ (percent : ℕ → ℕ → ℕ) (js : Platform) (store : TelemetryStore)
    (jobs : List ActiveJobSnapshot) (acked_ids : List String) (now : Time)
    (labeller : CanonicalTag → String) (max_cleared : ℕ) where
  next_events-count :
      (prev : List LiveAlarmEvent) (key : String)
      → count_by
          (is_open_at key)
          (next_events js store jobs prev acked_ids now labeller max_cleared)
        ≡ count_by (is_alarming key) (findings_for_jobs js store jobs now)
  unfolding next_events findings_for_jobs
  next_events-count prev key =
      let fs = findings_from js store jobs now [] in
      let prior = open_by_tag prev [] in
      let (own, unique) = findings_from-Own js store jobs now [] (tt, λ k. omega arith) in
      let found =
        on_findings-count js (js.to_iso now) acked_ids labeller key prior fs
          (open_by_tag-OpenAt prev [] tt) own in
      let gone = dropped (js.to_iso now) fs prior in
      let carried = trimmed_carry js max_cleared prev in
      omega (
        arith,
        found,
        count_by-append (is_open_at key)
            (on_findings js (js.to_iso now) acked_ids labeller prior fs) (gone ++ carried),
        count_by-append (is_open_at key) gone carried,
        dropped-count key (js.to_iso now) fs prior,
        trimmed_carry-count js key max_cleared prev,
      )

  findings_for_jobs-count :
      (key : String) → count_by (is_alarming key) (findings_for_jobs js store jobs now) ≤ 1
  unfolding findings_for_jobs
  findings_for_jobs-count key =
      let (own, unique) = findings_from-Own js store jobs now [] (tt, λ k. omega arith) in
      omega (arith, unique key, alarming-le key (findings_from js store jobs now []))

  -- Whatever the previous snapshot was, the new one has, for a job and a tag, one event that is not
  -- cleared if the tick's finding for them has a state, and none otherwise; there is no second one.
  pub derive_alarm_center_snapshot-count :
      (prev : Option AlarmCenterSnapshot) (key : String)
      → (count_by
            (is_open_at key)
            (derive_alarm_center_snapshot percent js store jobs prev acked_ids now labeller
              max_cleared).events
          ≡ count_by (is_alarming key) (findings_for_jobs js store jobs now))
        × (count_by (is_alarming key) (findings_for_jobs js store jobs now) ≤ 1)
  unfolding derive_alarm_center_snapshot sort_for_display
  derive_alarm_center_snapshot-count prev key = (
    count_by-sort_by (displayed_before js) (is_open_at key)
          (next_events js store jobs (prev_events prev) acked_ids now labeller max_cleared)
        ∙ next_events-count (prev_events prev) key,
    findings_for_jobs-count key,
  )
