-- ===== src/Orchestrator/Select/Small.antt =====
-- The numbers that selectBestAlternative (internal/orchestrator/orchestrator.go) compares.
-- The counters of a system that stay below 2^25.
use smart_retry_orchestrator.Orchestrator.State.{System}
use smart_retry_orchestrator.Float.{Float64, IsIeee, small}
use smart_retry_orchestrator.Domain.Enums.{
  FailureReasonCode, ProcessorName, processor_a, processor_b, processor_c,
}
use smart_retry_orchestrator.Health.{get_health}
use smart_retry_orchestrator.Domain.Models.{processor_cost, Time}
use smart_retry_orchestrator.Common.{
  ℕ, length, ◌≤◌, ◌<◌, arith, refl, Bool-cases, str_eq, inl, inr, ◌==◌, length-keep, ◌-◌, ltb, keep,
}
use smart_retry_orchestrator.Common.Dict.{lookup}
use smart_retry_orchestrator.Orchestrator.Select.Best.{IsSmall}
use smart_retry_orchestrator.Health.Window.{window_of, observed, get_health_rate, failed}
use smart_retry_orchestrator.Orchestrator.Adaptive.{
  record_of, get_adaptive_rate, get_adaptive_rate-eq,
}
use smart_retry_orchestrator.Health.Compact.{in_window}

pub record IsModerate {F : Type 0} (s : System F) : Type 0 where
  pub windows : (p : ProcessorName) → length (window_of p s.health_tracker) < small
  pub records :
      (code : FailureReasonCode) (p : ProcessorName)
      → let rec = record_of code p s.adaptive_data in
        (rec.successes ≤ rec.total) × (rec.total < small)

module _ {F : Type 0} ⦃fl : Float64 F⦄ where
  IsSmall-lit : (a b : ℕ) → a < small → 0 < b → b < small → IsSmall {F = F} (fl.lit a b)
  IsSmall-lit a b ha hb hs = record {
    num = a;
    den = b;
    value = refl;
    num_lt = ha;
    den_pos = hb;
    den_lt = hs;
  }

  pub IsSmall-cost : (p : ProcessorName) → IsSmall {F = F} (processor_cost p)
  unfolding processor_cost lookup
  IsSmall-cost p =
      let cents = λ (a : ℕ) (h : a < small). IsSmall-lit a 100 h (omega arith) (omega arith) in
      elim (Bool-cases (str_eq processor_a p)) [
        | inl a ↦ rw a (cents 30 (omega arith))
        | inr a ↦ elim (Bool-cases (str_eq processor_b p)) [
          | inl b ↦ rw (a, b) (cents 25 (omega arith))
          | inr b ↦ elim (Bool-cases (str_eq processor_c p)) [
            | inl c ↦ rw (a, b, c) (cents 20 (omega arith))
            | inr c ↦ rw (a, b, c) (IsSmall-lit 0 1 (omega arith) (omega arith) (omega arith))
          ]
        ]
      ]

  module _ (ieee : IsIeee F) where
    open ieee use {div-of_int}

    IsSmall-div :
        (a b : ℕ) → a ≤ b → 0 < b → b < small → IsSmall {F = F} (fl.div (fl.of_int a) (fl.of_int b))
    IsSmall-div a b hle hb hs =
        let ha : a < small = omega arith in rw (div-of_int a b ha hb hs) (IsSmall-lit a b ha hb hs)

    pub IsSmall-rate :
        (s : System F)
        → IsModerate s
        → (code : FailureReasonCode) (p : ProcessorName)
        → IsSmall {F = F} (get_adaptive_rate code p s.adaptive_data)
    IsSmall-rate s moderate code p =
        let rec = record_of code p s.adaptive_data in
        let (hle, hs) = moderate.records code p in
        rw (get_adaptive_rate-eq F code p s.adaptive_data) (elim (Bool-cases (rec.total == 0)) [
          | inl e ↦ rw e (IsSmall-lit 50 100 (omega arith) (omega arith) (omega arith))
          | inr e ↦ rw e (IsSmall-div rec.successes rec.total hle (ground arith) hs)
        ])

    pub IsSmall-failure_rate :
        (s : System F)
        → IsModerate s
        → (now : Time) (p : ProcessorName)
        → IsSmall {F = F} (get_health now s.health_tracker p).failure_rate
    IsSmall-failure_rate s moderate now p =
        let tracker = s.health_tracker in
        let seen = observed now p tracker in
        let within = length-keep (in_window (now - tracker.window)) (window_of p tracker) in
        let few : length seen < small = omega (arith, within, moderate.windows p) in
        rw (get_health_rate F now tracker p) (elim (Bool-cases (ltb (length seen) 5)) [
          | inl e ↦ rw e (IsSmall-lit 0 1 (omega arith) (omega arith) (omega arith))
          | inr e ↦ rw e (
              IsSmall-div (length (keep failed seen)) (length seen) (length-keep failed seen)
                (ground arith) few)
        ])
