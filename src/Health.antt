-- ===== src/Health.antt =====
-- internal/health/tracker.go: the rolling window of outcomes of each processor. `now` is what
-- nowFunc returns to the call; the mutex makes each method one step.
pub mod Compact
pub mod Window
pub mod Thresholds
pub mod History
use smart_retry_orchestrator.Common.{
  ℕ, suc, ◌+◌, ◌-◌, ◌*◌, String, Bool, Option, none, some, List, [], ◌∷◌, ◌++◌, ltb, leb,
  if◌then◌else◌,
}
use smart_retry_orchestrator.Common.Dict.{Dict, lookup, insert, get_or}
use smart_retry_orchestrator.Domain.Enums.{
  ProcessorName, ProcessorState, healthy, degraded, down, processor_a, processor_b, processor_c,
}
use smart_retry_orchestrator.Domain.Models.{Time, minute, ProcessorHealthSnapshot}
use smart_retry_orchestrator.Float.{Float64}
use Compact.{Outcome, outcome, compact}

abbrev pub default_window : ℕ
default_window = 15 * minute

abbrev pub min_samples_for_assessment : ℕ
min_samples_for_assessment = 5

pub record RollingHealthTracker : Type 0 where
  pub windows : Dict (List Outcome)
  pub window : ℕ

unfoldable pub new_health_tracker : RollingHealthTracker
new_health_tracker = record { windows = []; window = default_window }

unfoldable pub record_outcome :
    (now : Time) → RollingHealthTracker → ProcessorName → Bool → Time → RollingHealthTracker
record_outcome now h processor success ts =
    let w = get_or [] (lookup processor h.windows) in
    let outcomes = w ++ outcome ts success ∷ [] in
    record h { windows = insert processor (compact (now - h.window) outcomes) h.windows }

unfoldable pub reset : RollingHealthTracker → RollingHealthTracker
reset h = record h { windows = [] }

module _ {F : Type 0} ⦃fl : Float64 F⦄ where
  abbrev degraded_threshold : F
  degraded_threshold = fl.lit 50 100

  abbrev down_threshold : F
  down_threshold = fl.lit 80 100

  -- one outcome that is in the window
  pub count_outcome : ProcessorHealthSnapshot F → Outcome → ProcessorHealthSnapshot F
  count_outcome snap o =
      if o.success
      then record snap { total_events = snap.total_events + 1; successes = snap.successes + 1 }
      else record snap { total_events = snap.total_events + 1; failures = snap.failures + 1 }

  -- the loop over `w.outcomes`, read only
  pub count_events : Time → ProcessorHealthSnapshot F → List Outcome → ProcessorHealthSnapshot F
  unfolding count_outcome
  count_events cutoff snap [] = snap
  count_events cutoff snap (o ∷ rest) =
      count_events cutoff (if ltb o.timestamp cutoff then snap else count_outcome snap o) rest

  state_of_rate : F → ProcessorState
  state_of_rate rate =
      if fl.le down_threshold rate
      then down
      else if fl.le degraded_threshold rate
      then degraded
      else healthy

  -- what follows the counting
  pub assess : ProcessorHealthSnapshot F → ProcessorHealthSnapshot F
  unfolding state_of_rate
  assess snap =
      if ltb snap.total_events min_samples_for_assessment
      then record snap { state = healthy }
      else let rate = fl.div (fl.of_int snap.failures) (fl.of_int snap.total_events) in
        record snap { failure_rate = rate; state = state_of_rate rate }

  -- A field that Go has not set yet has its zero value; the state, which every path sets, has
  -- `healthy` in the place of Go's "".
  unfoldable pub blank :
      (now : Time) → RollingHealthTracker → ProcessorName → ProcessorHealthSnapshot F
  blank now h processor = record {
    processor = processor;
    state = healthy;
    failure_rate = fl.lit 0 1;
    total_events = 0;
    failures = 0;
    successes = 0;
    window_start = now - h.window;
    window_end = now;
  }

  -- getHealthLocked
  unfoldable pub get_health :
      (now : Time) → RollingHealthTracker → ProcessorName → ProcessorHealthSnapshot F
  unfolding count_events assess blank
  get_health now h processor = elim (lookup processor h.windows) [
    | none ↦ record (blank now h processor) { state = healthy }
    | some outcomes ↦ assess (count_events (now - h.window) (blank now h processor) outcomes)
  ]

  -- The clock is read once for each processor: `now`, `now'` and `now''`.
  unfoldable pub get_all_health :
      (now now' now'' : Time) → RollingHealthTracker → Dict (ProcessorHealthSnapshot F)
  get_all_health now now' now'' h = insert processor_c (get_health now'' h processor_c) (
      insert processor_b (get_health now' h processor_b)
        (insert processor_a (get_health now h processor_a) []))
