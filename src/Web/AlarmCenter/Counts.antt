-- ===== src/Web/AlarmCenter/Counts.antt =====
-- What the numbers of the summary count.
use rvf_malinois.Prelude.{
  ◌∙◌, subst, List, [], ◌∷◌, Bool, ℕ, ◌==◌, ◌+◌, ◌≤◌, ◌≡◌, length, count_by, arith, refl,
  if◌then◌else◌, ◌&&◌, not, suc, Bool-cases, inl, inr,
}
use rvf_malinois.Web.AlarmCenter.{
  Lifecycle, active, acked, cleared, Severity, SourceType, LiveAlarmEvent, Summary,
}
use rvf_malinois.Web.AlarmCenter.Derive.{is_cleared, severity_rank}
use rvf_malinois.Web.AlarmCenter.Tick.{
  zero_counts, count_event, count_events, count_severity, count_source, summarise,
}

-- The number of a severity.
abbrev pub of_severity : Severity → Summary → ℕ
of_severity Severity.urgent c = c.urgent
of_severity Severity.high c = c.high
of_severity Severity.medium c = c.medium
of_severity Severity.low c = c.low

-- An event that is not cleared and has the severity `s`.
abbrev pub is_open_with : Severity → LiveAlarmEvent → Bool
is_open_with s e = not (is_cleared e.lifecycle) && severity_rank e.severity == severity_rank s

-- One event adds one to the number of its severity, and only while it is open.
count_event-severity :
    (s : Severity) (e : LiveAlarmEvent) (c : Summary)
    → of_severity s (count_event e e.lifecycle c)
      ≡ of_severity s c + (if is_open_with s e then 1 else 0)
unfolding count_event
count_event-severity s e c = ground arith

-- The sums that the numbers keep, with `n` events seen, of which `extra` still has no severity.
abbrev pub Balanced : ℕ → ℕ → Summary → Type 0
Balanced extra n c =
    (c.active_total ≡ c.urgent + c.high + c.medium + c.low + extra)
    × (c.active_total ≡ c.acked + c.active_unacked)
    × (c.data_quality_active + c.communication_active + extra ≤ c.active_total)
    × (n ≡ c.active_total + c.cleared)

sorted-Balanced :
    (t : Severity) (k : SourceType) (n : ℕ) (c : Summary)
    → Balanced 1 n c
    → Balanced 0 n (count_source k (count_severity t c))
sorted-Balanced t k n c b = ground arith

count_event-Balanced :
    (e : LiveAlarmEvent) (l : Lifecycle) (n : ℕ) (c : Summary)
    → Balanced 0 n c
    → Balanced 0 (suc n) (count_event e l c)
unfolding count_event
count_event-Balanced e cleared n c b = ground arith
count_event-Balanced e acked n c b = sorted-Balanced e.severity e.source (suc n) _ (ground arith)
count_event-Balanced e active n c b = sorted-Balanced e.severity e.source (suc n) _ (ground arith)

count_events-Balanced :
    (es : List LiveAlarmEvent) (n : ℕ) (c : Summary)
    → Balanced 0 n c
    → Balanced 0 (n + length es) (count_events es c)
unfolding count_events
count_events-Balanced [] n c b = ground arith
count_events-Balanced (e ∷ es) n c b =
    let same : suc n + length es ≡ n + length (e ∷ es) = omega arith in
    subst (λ k. Balanced 0 k (count_events es (count_event e e.lifecycle c))) same
      (count_events-Balanced es (suc n) (count_event e e.lifecycle c)
        (count_event-Balanced e e.lifecycle n c b))

count_events-severity :
    (s : Severity) (es : List LiveAlarmEvent) (c : Summary)
    → of_severity s (count_events es c) ≡ of_severity s c + count_by (is_open_with s) es
unfolding count_events
count_events-severity s [] c = omega arith
count_events-severity s (e ∷ es) c = elim (Bool-cases (is_open_with s e)) [
  | inl o ↦
      let one : of_severity s (count_event e e.lifecycle c) ≡ of_severity s c + 1 =
        count_event-severity s e c ∙ rw o refl in
      rw o (omega (arith, one, count_events-severity s es (count_event e e.lifecycle c)))
  | inr o ↦
      let none : of_severity s (count_event e e.lifecycle c) ≡ of_severity s c + 0 =
        count_event-severity s e c ∙ rw o refl in
      rw o (omega (arith, none, count_events-severity s es (count_event e e.lifecycle c)))
]

zero_add : (n : ℕ) → 0 + n ≡ n
zero_add n = omega arith

summarise-Balanced :
    (percent : ℕ → ℕ → ℕ) (es : List LiveAlarmEvent)
    → Balanced 0 (summarise percent es).total_events (summarise percent es)
unfolding summarise
summarise-Balanced percent es =
    subst (λ k. Balanced 0 k (count_events es zero_counts)) (zero_add (length es))
      (count_events-Balanced es 0 zero_counts (ground arith))

summarise-severity :
    (percent : ℕ → ℕ → ℕ) (s : Severity) (es : List LiveAlarmEvent)
    → of_severity s (summarise percent es) ≡ count_by (is_open_with s) es
unfolding summarise
summarise-severity percent Severity.urgent es =
    count_events-severity Severity.urgent es zero_counts
    ∙ zero_add (count_by (is_open_with Severity.urgent) es)
summarise-severity percent Severity.high es =
    count_events-severity Severity.high es zero_counts
    ∙ zero_add (count_by (is_open_with Severity.high) es)
summarise-severity percent Severity.medium es =
    count_events-severity Severity.medium es zero_counts
    ∙ zero_add (count_by (is_open_with Severity.medium) es)
summarise-severity percent Severity.low es =
    count_events-severity Severity.low es zero_counts
    ∙ zero_add (count_by (is_open_with Severity.low) es)

-- Every event is counted as open or as cleared, every open one once by its severity and once as
-- acknowledged or not, and at most once as an issue of data quality or of communication; and the
-- number of each severity is how many events that are not cleared have it, acknowledged or not.
summarise-counts :
    (percent : ℕ → ℕ → ℕ) (es : List LiveAlarmEvent)
    → Balanced 0 (summarise percent es).total_events (summarise percent es)
      × ((s : Severity) → of_severity s (summarise percent es) ≡ count_by (is_open_with s) es)
summarise-counts percent es = (summarise-Balanced percent es, λ s. summarise-severity percent s es)
