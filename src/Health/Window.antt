-- ===== src/Health/Window.antt =====
-- What a snapshot of internal/health/tracker.go counts, and what a record changes.
use smart_retry_orchestrator.Common.{
  ◌+◌, ◌-◌, ◌≡◌, refl, Bool, not, List, [], ◌∷◌, ◌++◌, arith, if◌then◌else◌, length, keep,
  Bool-cases, Option-cases, inl, inr, str_eq, keep_idem, ltb,
}
use smart_retry_orchestrator.Common.Dict.{lookup, get_or, lookup-insert}
use smart_retry_orchestrator.Domain.Enums.{ProcessorName}
use smart_retry_orchestrator.Domain.Models.{Time, ProcessorHealthSnapshot}
use smart_retry_orchestrator.Float.{Float64}
use smart_retry_orchestrator.Health.{
  RollingHealthTracker, record_outcome, get_health, blank, count_events, count_outcome, assess,
}
use smart_retry_orchestrator.Health.Compact.{Outcome, outcome, in_window, compact-eq-keep}

-- The stored outcomes of a processor.
abbrev pub window_of : ProcessorName → RollingHealthTracker → List Outcome
window_of p h = get_or [] (lookup p h.windows)

-- Those of them that a snapshot at `now` may look at.
abbrev pub observed : Time → ProcessorName → RollingHealthTracker → List Outcome
observed now p h = keep (in_window (now - h.window)) (window_of p h)

abbrev pub succeeded : Outcome → Bool
succeeded o = o.success

abbrev pub failed : Outcome → Bool
failed o = not o.success

-- A record adds one outcome to its processor's window, drops what has expired there, and leaves the
-- other windows alone.
pub window_of-record_outcome :
    (now : Time) (h : RollingHealthTracker) (p q : ProcessorName) (s : Bool) (ts : Time)
    → window_of q (record_outcome now h p s ts) ≡ (
        if str_eq p q
        then keep (in_window (now - h.window)) (window_of p h ++ outcome ts s ∷ [])
        else window_of q h)
unfolding record_outcome
window_of-record_outcome now h p q s ts =
    rw (lookup-insert p q, compact-eq-keep)
      (elim (Bool-cases (str_eq p q)) [ inl e ↦ rw e refl | inr e ↦ rw e refl ])

length-keep_split :
    (outcomes : List Outcome)
    → length (keep succeeded outcomes) + length (keep failed outcomes) ≡ length outcomes
length-keep_split [] = omega arith
length-keep_split (o ∷ rest) = ground (arith, length-keep_split rest)

module _ (F : Type 0) ⦃fl : Float64 F⦄ where
  count_events_lem :
      (cutoff : Time) (snap : ProcessorHealthSnapshot F) (outcomes : List Outcome)
      → let seen = keep (in_window cutoff) outcomes in
        let after = count_events cutoff snap outcomes in
        (after.total_events ≡ snap.total_events + length seen)
        × (after.successes ≡ snap.successes + length (keep succeeded seen))
        × (after.failures ≡ snap.failures + length (keep failed seen))
  unfolding count_events in_window
  count_events_lem cutoff snap [] = omega arith
  count_events_lem cutoff snap (o ∷ rest) = ground (
    arith,
    count_events_lem cutoff snap rest,
    count_events_lem cutoff (count_outcome snap o) rest,
  )

  -- Only what is in the window counts.
  pub count_events-keep :
      (cutoff : Time) (snap : ProcessorHealthSnapshot F) (outcomes : List Outcome)
      → count_events cutoff snap (keep (in_window cutoff) outcomes)
        ≡ count_events cutoff snap outcomes
  unfolding count_events in_window
  count_events-keep cutoff snap [] = refl
  count_events-keep cutoff snap (o ∷ rest) = ground (
    arith,
    count_events-keep cutoff snap rest,
    count_events-keep cutoff (count_outcome snap o) rest,
  )

  pub get_health-eq-assess :
      (now : Time) (h : RollingHealthTracker) (p : ProcessorName)
      → get_health {F = F} now h p
        ≡ assess (count_events (now - h.window) (blank now h p) (observed now p h))
  unfolding get_health
  get_health-eq-assess now h p = elim (Option-cases (lookup p h.windows)) [
    | inl e ↦ rw (e, get_health) refl
    | inr (w, e) ↦ rw (e, get_health, count_events-keep) refl
  ]

  pub assess_fields :
      (snap : ProcessorHealthSnapshot F)
      → ((assess snap).total_events ≡ snap.total_events)
        × ((assess snap).successes ≡ snap.successes)
        × ((assess snap).failures ≡ snap.failures)
        × ((assess snap).window_start ≡ snap.window_start)
        × ((assess snap).window_end ≡ snap.window_end)
  unfolding assess
  assess_fields snap = ground arith

  -- A snapshot counts exactly the outcomes of its processor that are not older than the window: all
  -- of them, the successful ones and the failed ones.
  pub get_health_counts :
      (now : Time) (h : RollingHealthTracker) (p : ProcessorName)
      → let snap : ProcessorHealthSnapshot F = get_health now h p in
        let seen = observed now p h in
        (snap.total_events ≡ length seen)
        × (snap.successes ≡ length (keep succeeded seen))
        × (snap.failures ≡ length (keep failed seen))
        × (snap.successes + snap.failures ≡ snap.total_events)
  unfolding blank
  get_health_counts now h p =
      let start : ProcessorHealthSnapshot F = blank now h p in
      let cutoff = now - h.window in
      rw get_health-eq-assess (
        ground (
          arith,
          assess_fields (count_events cutoff start (observed now p h)),
          count_events_lem cutoff start (observed now p h),
          length-keep_split (observed now p h),
          keep_idem (in_window cutoff) (window_of p h),
        ))

  assess_rate :
      (snap : ProcessorHealthSnapshot F)
      → (assess snap).failure_rate ≡ (
          if ltb snap.total_events 5
          then snap.failure_rate
          else fl.div (fl.of_int snap.failures) (fl.of_int snap.total_events))
  unfolding assess
  assess_rate snap = ground arith

  count_outcome_rate :
      (snap : ProcessorHealthSnapshot F) (o : Outcome)
      → (count_outcome snap o).failure_rate ≡ snap.failure_rate
  unfolding count_outcome
  count_outcome_rate snap o = ground arith

  count_events_rate :
      (cutoff : Time) (snap : ProcessorHealthSnapshot F) (outcomes : List Outcome)
      → (count_events cutoff snap outcomes).failure_rate ≡ snap.failure_rate
  unfolding count_events
  count_events_rate cutoff snap [] = refl
  count_events_rate cutoff snap (o ∷ rest) = ground (
    arith,
    count_events_rate cutoff snap rest,
    count_events_rate cutoff (count_outcome snap o) rest,
    count_outcome_rate snap o,
  )

  -- The failure rate of a snapshot, which stays zero below the minimum of samples.
  pub get_health_rate :
      (now : Time) (h : RollingHealthTracker) (p : ProcessorName)
      → (get_health {F = F} now h p).failure_rate ≡ (
          if ltb (length (observed now p h)) 5
          then fl.lit 0 1
          else fl.div
              (fl.of_int (length (keep failed (observed now p h))))
              (fl.of_int (length (observed now p h))))
  unfolding blank
  get_health_rate now h p =
      let start : ProcessorHealthSnapshot F = blank now h p in
      let cutoff = now - h.window in
      let counted = count_events cutoff start (observed now p h) in
      rw get_health-eq-assess (
        ground (
          arith,
          assess_rate counted,
          count_events_rate cutoff start (observed now p h),
          count_events_lem cutoff start (observed now p h),
          keep_idem (in_window cutoff) (window_of p h),
        ))
