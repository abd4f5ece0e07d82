-- ===== src/Classifier/Policy.antt =====
-- What the rules of internal/classifier/classifier.go decide, for every failure code.
use smart_retry_orchestrator.Common.{◌≡◌, ◌≢◌, ◌↔◌, ◌⊎◌, arith}
use smart_retry_orchestrator.Domain.Enums.{
  FailureReasonCode, hard_decline, soft_decline, do_not_retry, code_processor_timeout,
  code_network_error, code_issuer_unavailable, code_do_not_honor, code_rate_limit_exceeded,
}
use smart_retry_orchestrator.Domain.Models.{FailureEvent}
use smart_retry_orchestrator.Classifier.{Classifier, classify}

-- The transient failures, independently of the rules.
abbrev pub IsTransient : FailureReasonCode → Type 0
IsTransient code =
    (code ≡ code_processor_timeout)
    ⊎ (code ≡ code_network_error)
    ⊎ (code ≡ code_issuer_unavailable)
    ⊎ (code ≡ code_do_not_honor)
    ⊎ (code ≡ code_rate_limit_exceeded)

module _ {F : Type 0} (event : FailureEvent F) where
  -- The strategy is DO_NOT_RETRY exactly for hard declines.
  pub classify-strategy :
      ((classify event).decline_type ≡ hard_decline) ↔ ((classify event).strategy ≡ do_not_retry)
  unfolding classify
  classify-strategy = ground arith

  pub soft-ne-do_not_retry :
      (classify event).decline_type ≡ soft_decline → (classify event).strategy ≢ do_not_retry
  unfolding classify
  soft-ne-do_not_retry h = ground arith

-- DefaultClassifier implements the interface.
instance abbrev pub default_classifier : {F : Type 0} → Classifier F
default_classifier = record { classify = classify; soft_has_strategy = soft-ne-do_not_retry }
