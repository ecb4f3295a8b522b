-- ===== src/Alarms/Bands.antt =====
-- The band that a value violates.
use rvf_malinois.Store.Effects.{Env}
use rvf_malinois.Alarms.Evaluation.{crosses, pick_violated_band}
use rvf_malinois.Store.Rows.{low, low_low, AlarmRule, high, Decimal, high_high, ThresholdViolated}
use rvf_malinois.Prelude.{arith, find_by, Bool, ◌≡◌, [], ◌∷◌, List}

module _ (env : Env) (value : Decimal) (rule : AlarmRule) where
  -- Whether the value lies strictly outside the threshold of a band.
  abbrev pub violates : ThresholdViolated → Bool
  violates high_high = crosses (env.greater_than value) rule.high_high_threshold
  violates high = crosses (env.greater_than value) rule.high_threshold
  violates low_low = crosses (env.less_than value) rule.low_low_threshold
  violates low = crosses (env.less_than value) rule.low_threshold

-- The bands in the order of their precedence.
abbrev pub precedence : List ThresholdViolated
precedence = high_high ∷ high ∷ low_low ∷ low ∷ []

-- The band picked is the first of high-high, high, low-low and low that the value violates, and
-- none is picked exactly where it violates none of them.
pick_violated_band-precedence :
    (env : Env) (value : Decimal) (rule : AlarmRule)
    → pick_violated_band env value rule ≡ find_by (violates env value rule) precedence
unfolding pick_violated_band
pick_violated_band-precedence env value rule = ground arith
