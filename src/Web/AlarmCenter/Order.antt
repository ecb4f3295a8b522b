-- ===== src/Web/AlarmCenter/Order.antt =====
-- The order of the events on display.
use rvf_malinois.Prelude.{
  Option, List, Bool, true, false, ℕ, ◌==◌, ltb, if◌then◌else◌, InOrder, sort_by-InOrder, count_by,
  count_by-sort_by, arith, ◌≡◌, Time,
}
use rvf_malinois.Web.Models.{Platform}
use rvf_malinois.Web.AlarmCenter.{LiveAlarmEvent}
use rvf_malinois.Web.AlarmCenter.Derive.{
  displayed_before, sort_for_display, not_older, lifecycle_rank, severity_rank,
}

not_older_total : (a b : Option Time) → not_older a b ≡ false → not_older b a ≡ true
not_older_total a b h = ground arith

-- Of two ranks that differ, one is less.
ranked_total :
    (a b c d : ℕ) (x y : Bool)
    → (x ≡ false → y ≡ true)
    → (if a == b then (if c == d then x else ltb c d) else ltb a b) ≡ false
    → (if b == a then (if d == c then y else ltb d c) else ltb b a) ≡ true
ranked_total a b c d x y f h = ground arith

module _ (js : Platform) where
  displayed_before_total :
      (a b : LiveAlarmEvent) → displayed_before js a b ≡ false → displayed_before js b a ≡ true
  unfolding displayed_before
  displayed_before_total a b =
      ranked_total (lifecycle_rank a.lifecycle) (lifecycle_rank b.lifecycle)
        (severity_rank a.severity) (severity_rank b.severity) _ _
        (not_older_total (js.parse_date a.first_seen_at) (js.parse_date b.first_seen_at))

  -- The events on display are those that were given, each as often as it was, and each one may
  -- stand before the next: active before acknowledged before cleared, then by severity, then the
  -- later first, where both times can be read.
  pub sort_for_display-InOrder :
      (es : List LiveAlarmEvent)
      → InOrder (displayed_before js) (sort_for_display js es)
        × ((p : LiveAlarmEvent → Bool) → count_by p (sort_for_display js es) ≡ count_by p es)
  unfolding sort_for_display
  sort_for_display-InOrder es = (
    sort_by-InOrder (displayed_before js) displayed_before_total es,
    λ p. count_by-sort_by (displayed_before js) p es,
  )
