-- ===== src/Health/Thresholds.antt =====
-- The states of internal/health/tracker.go in whole numbers.
use smart_retry_orchestrator.Common.{
  ℕ, ◌*◌, ◌≤◌, ◌<◌, ◌≡◌, ◌↔◌, arith, ltb, leb, if◌then◌else◌, length, keep, ◌⊎◌, ◌-◌, length-keep,
}
use smart_retry_orchestrator.Domain.Enums.{ProcessorName, ProcessorState, healthy, degraded, down}
use smart_retry_orchestrator.Domain.Models.{Time, ProcessorHealthSnapshot}
use smart_retry_orchestrator.Float.{Float64, IsIeee, small}
use smart_retry_orchestrator.Health.{RollingHealthTracker, get_health, assess, count_events, blank}
use smart_retry_orchestrator.Health.Window.{
  observed, get_health-eq-assess, get_health_counts, failed, assess_fields,
}

-- The thresholds over whole numbers.
abbrev state_of : (fails total : ℕ) → ProcessorState
state_of fails total =
    if ltb total 5
    then healthy
    else if leb (4 * total) (5 * fails)
    then down
    else if leb total (2 * fails)
    then degraded
    else healthy

module _ (F : Type 0) ⦃fl : Float64 F⦄ (ieee : IsIeee F) where
  open ieee use {div-of_int, le-lit}

  state-assess :
      (snap : ProcessorHealthSnapshot F)
      → snap.failures ≤ snap.total_events
      → snap.total_events < small
      → (assess snap).state ≡ state_of snap.failures snap.total_events
  unfolding assess
  state-assess snap hf ht = ground (
    arith,
    div-of_int snap.failures snap.total_events,
    le-lit 80 100 snap.failures snap.total_events,
    le-lit 50 100 snap.failures snap.total_events,
  )

  -- With fewer than 2^25 outcomes in the window, of which `fails` failed and `total` are counted, a
  -- processor is DOWN exactly when there are five samples and at least four fifths failed, DEGRADED
  -- exactly when there are five samples and at least half but less than four fifths failed, and
  -- HEALTHY exactly when there are fewer than five samples or less than half failed.
  pub get_health-state_iff :
      (now : Time) (h : RollingHealthTracker) (p : ProcessorName)
      → length (observed now p h) < small
      → let state = (get_health {F = F} now h p).state in
        let total = length (observed now p h) in
        let fails = length (keep failed (observed now p h)) in
        ((state ≡ down) ↔ ((5 ≤ total) × (4 * total ≤ 5 * fails)))
        × ((state ≡ degraded) ↔ ((5 ≤ total) × (total ≤ 2 * fails) × (5 * fails < 4 * total)))
        × ((state ≡ healthy) ↔ ((total < 5) ⊎ (2 * fails < total)))
  get_health-state_iff now h p few =
      let seen = observed now p h in
      let start : ProcessorHealthSnapshot F = count_events (now - h.window) (blank now h p) seen in
      let counts = get_health_counts F now h p in
      ground (
        arith,
        length-keep failed seen,
        get_health-eq-assess F now h p,
        assess_fields F start,
        state-assess start,
      )
