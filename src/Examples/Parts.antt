-- ===== src/Examples/Parts.antt =====
-- The classifier, the health tracker and the adaptive data on concrete inputs.
use smart_retry_orchestrator.Float.{ratio_float, Ratio, ratio, Ratio-IsIeee}
use smart_retry_orchestrator.Common.{
  List, ◌*◌, keep, Bool, length, false, ◌∷◌, ◌≡◌, true, refl, [], if◌then◌else◌, ◌↔◌, arith, ◌==◌,
  ◌≤◌, ◌<◌, ◌⊎◌,
}
use smart_retry_orchestrator.Health.{
  RollingHealthTracker, get_health, new_health_tracker, default_window,
}
use smart_retry_orchestrator.Domain.Models.{Time, ProcessorHealthSnapshot, minute}
use smart_retry_orchestrator.Orchestrator.Adaptive.{
  get_adaptive_rate, AdaptiveReport, learn, is_about, record_adaptive, get_adaptive_rate-learn,
}
use smart_retry_orchestrator.Common.Dict.{lookup, insert}
use smart_retry_orchestrator.Health.Compact.{compact, in_window, Outcome, outcome, compact-eq-keep}
use smart_retry_orchestrator.Health.History.{Report, replay, recent, get_health-replay}
use smart_retry_orchestrator.Domain.Enums.{
  code_do_not_honor, processor_a, processor_b, down, processor_c, degraded, healthy,
}
use smart_retry_orchestrator.Health.Window.{succeeded, failed}
use smart_retry_orchestrator.Health.Thresholds.{get_health-state_iff}

abbrev six_outcomes : List Outcome
six_outcomes =
    outcome (999 * minute) false
    ∷ outcome (10 * minute) true
    ∷ outcome (998 * minute) false
    ∷ outcome (997 * minute) true
    ∷ outcome (1000 * minute) false
    ∷ outcome (1000 * minute) false
    ∷ []

compact-eq-keep_example :
    compact (985 * minute) six_outcomes ≡ keep (in_window (985 * minute)) six_outcomes
compact-eq-keep_example = compact-eq-keep (985 * minute) six_outcomes

compact_drops_one : length (compact (985 * minute) six_outcomes) ≡ 5
unfolding compact in_window
compact_drops_one = refl

abbrev busy : RollingHealthTracker
busy = record { windows = (processor_a, six_outcomes) ∷ []; window = default_window }

busy_is_down : (get_health {F = Ratio} (1000 * minute) busy processor_a).state ≡ down
unfolding get_health lookup
busy_is_down = refl

get_health-state_iff_example :
    let state = (get_health {F = Ratio} (1000 * minute) busy processor_a).state in
    ((state ≡ down) ↔ ((5 ≤ 5) × (20 ≤ 20)))
    × ((state ≡ degraded) ↔ ((5 ≤ 5) × (5 ≤ 8) × (20 < 20)))
    × ((state ≡ healthy) ↔ ((5 < 5) ⊎ (8 < 5)))
unfolding lookup in_window
get_health-state_iff_example =
    get_health-state_iff Ratio Ratio-IsIeee (1000 * minute) busy processor_a (omega arith)

abbrev report : Time → Bool → Report
report t b = record { now = t; processor = processor_a; success = b; timestamp = t }

abbrev reports : List Report
reports =
    report (900 * minute) false ∷ report (990 * minute) true ∷ report (1000 * minute) false ∷ []

get_health-replay_example :
    let now = 1001 * minute in
    let snap : ProcessorHealthSnapshot Ratio =
      get_health now (replay new_health_tracker reports) processor_a in
    (snap.total_events ≡ length (recent now processor_a reports))
    × (snap.successes ≡ length (keep succeeded (recent now processor_a reports)))
    × (snap.failures ≡ length (keep failed (recent now processor_a reports)))
get_health-replay_example =
    get_health-replay Ratio (1001 * minute) processor_a reports (omega arith)

abbrev retries : List AdaptiveReport
retries =
    record { code = code_do_not_honor; processor = processor_b; success = true }
    ∷ record { code = code_do_not_honor; processor = processor_c; success = false }
    ∷ record { code = code_do_not_honor; processor = processor_b; success = false }
    ∷ []

rate_of_b :
    get_adaptive_rate {F = Ratio} code_do_not_honor processor_b (learn [] retries) ≡ ratio 1 2
unfolding get_adaptive_rate learn record_adaptive lookup insert
rate_of_b = refl

get_adaptive_rate-learn_example :
    let about = keep (is_about code_do_not_honor processor_b) retries in
    get_adaptive_rate {F = Ratio} code_do_not_honor processor_b (learn [] retries) ≡ (
      if length about == 0
      then ratio 50 100
      else ratio_float.div
          (ratio_float.of_int (length (keep (λ r. r.success) about)))
          (ratio_float.of_int (length about)))
get_adaptive_rate-learn_example =
    get_adaptive_rate-learn Ratio code_do_not_honor processor_b retries
