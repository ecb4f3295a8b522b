-- ===== src/Web/Adapter/Backoff.antt =====
-- The delays of the adapter's reconnections.
use rvf_malinois.Prelude.{ℕ, zero, suc, ◌+◌, ◌/◌, ◌≤◌, min, get_or, arith}
use rvf_malinois.Web.Adapter.{backoff_for, backoff_steps_ms}

-- `Math.random` is at least 0 and below 1, so the jitter adds at most a quarter.
abbrev pub JitterBounds : (ℕ → ℕ → ℕ) → Type 0
JitterBounds jitter = (n base : ℕ) → (base ≤ jitter n base) × (jitter n base ≤ base + base / 4)

-- A delay of the table is at least half a second and at most half a minute, and half a minute from
-- the seventh attempt on.
step_bounds :
    (i : ℕ)
    → i ≤ 6
    → (500 ≤ get_or backoff_steps_ms i 30000)
      × (get_or backoff_steps_ms i 30000 ≤ 30000)
      × (6 ≤ i → 30000 ≤ get_or backoff_steps_ms i 30000)
step_bounds zero h = (omega arith, omega arith, λ k. omega arith)
step_bounds (suc zero) h = (omega arith, omega arith, λ k. omega arith)
step_bounds (suc (suc zero)) h = (omega arith, omega arith, λ k. omega arith)
step_bounds (suc (suc (suc zero))) h = (omega arith, omega arith, λ k. omega arith)
step_bounds (suc (suc (suc (suc zero)))) h = (omega arith, omega arith, λ k. omega arith)
step_bounds (suc (suc (suc (suc (suc zero))))) h = (omega arith, omega arith, λ k. omega arith)
step_bounds (suc (suc (suc (suc (suc (suc zero)))))) h =
    (omega arith, omega arith, λ k. omega arith)
step_bounds (suc (suc (suc (suc (suc (suc (suc i))))))) h = absurd (omega arith)

-- Where the random numbers are those of `Math.random`, the delay before a reconnection is at least
-- half a second and at most 37.5 seconds, whatever the attempt, and at least half a minute from the
-- seventh attempt on.
backoff_for-bounds :
    (jitter : ℕ → ℕ → ℕ) (n attempt : ℕ)
    → JitterBounds jitter
    → (500 ≤ backoff_for jitter n attempt)
      × (backoff_for jitter n attempt ≤ 37500)
      × (6 ≤ attempt → 30000 ≤ backoff_for jitter n attempt)
unfolding backoff_for
backoff_for-bounds jitter n attempt bounds =
    let base : ℕ = get_or backoff_steps_ms (min attempt 6) 30000 in
    let (least, most, late) = step_bounds (min attempt 6) (omega arith) in
    let (low, high) = bounds n base in
    (omega arith, omega arith, λ k. let l = late (omega arith) in omega arith)
