-- ===== src/Classifier.antt =====
-- internal/classifier: the static rules that map a failure code to a decline type and a strategy.
pub mod Policy
use smart_retry_orchestrator.Common.{String, ◌≡◌, ◌≢◌, List, [], ◌∷◌, Option, none, some}
use smart_retry_orchestrator.Common.Dict.{Dict, lookup}
use smart_retry_orchestrator.Domain.Enums.{
  DeclineType, hard_decline, soft_decline, RetryStrategy, do_not_retry, immediate, delayed,
  alternative_processor, code_insufficient_funds, code_card_expired, code_invalid_card,
  code_fraud_suspected, code_processor_timeout, code_network_error, code_issuer_unavailable,
  code_do_not_honor, code_rate_limit_exceeded,
}
use smart_retry_orchestrator.Domain.Models.{FailureEvent, ClassificationResult}

pub record ClassificationRule : Type 0 where
  pub decline_type : DeclineType
  pub strategy : RetryStrategy
  pub reasoning : String

abbrev rule : DeclineType → RetryStrategy → String → ClassificationRule
rule d s r = record { decline_type = d; strategy = s; reasoning = r }

abbrev insufficient_funds_rule : ClassificationRule
insufficient_funds_rule =
    rule hard_decline do_not_retry
      "INSUFFICIENT_FUNDS: The cardholder's account balance is below the transaction amount. This is a permanent condition outside our control — retrying would produce the same result and waste processing fees."

abbrev card_expired_rule : ClassificationRule
card_expired_rule =
    rule hard_decline do_not_retry
      "CARD_EXPIRED: The payment card has passed its expiration date and will be permanently rejected by the issuing bank. A new card number is required from the cardholder."

abbrev invalid_card_rule : ClassificationRule
invalid_card_rule =
    rule hard_decline do_not_retry
      "INVALID_CARD: The card number fails validation checks (Luhn algorithm or BIN range). This is a data entry error that cannot be resolved by retrying the same card number."

abbrev fraud_suspected_rule : ClassificationRule
fraud_suspected_rule =
    rule hard_decline do_not_retry
      "FRAUD_SUSPECTED: The issuing bank's fraud detection system has flagged this transaction. Retrying could trigger additional security alerts and may result in the card being blocked entirely."

abbrev processor_timeout_rule : ClassificationRule
processor_timeout_rule =
    rule soft_decline immediate
      "PROCESSOR_TIMEOUT: The payment processor did not respond within the expected time window. This is a transient infrastructure issue — the processor is likely available for immediate retry."

abbrev network_error_rule : ClassificationRule
network_error_rule =
    rule soft_decline immediate
      "NETWORK_ERROR: A connectivity failure occurred between our system and the processor. This is a transient network issue unrelated to the transaction itself — immediate retry has a high success probability."

abbrev issuer_unavailable_rule : ClassificationRule
issuer_unavailable_rule =
    rule soft_decline alternative_processor
      "ISSUER_UNAVAILABLE: The cardholder's issuing bank is not responding. Since this is bank-side, routing through an alternative processor that connects via a different acquiring bank may succeed."

abbrev do_not_honor_rule : ClassificationRule
do_not_honor_rule =
    rule soft_decline alternative_processor
      "DO_NOT_HONOR: Generic issuer refusal without a specific reason code. This is often processor-path-specific rather than card-specific — routing through an alternative processor may take a different acquiring path and succeed."

abbrev rate_limit_exceeded_rule : ClassificationRule
rate_limit_exceeded_rule =
    rule soft_decline delayed
      "RATE_LIMIT_EXCEEDED: The processor has throttled our requests due to volume limits. A 30-second delay allows the rate limit window to reset before retrying on the same processor."

abbrev pub rules : Dict ClassificationRule
rules =
    (code_insufficient_funds, insufficient_funds_rule)
    ∷ (code_card_expired, card_expired_rule)
    ∷ (code_invalid_card, invalid_card_rule)
    ∷ (code_fraud_suspected, fraud_suspected_rule)
    ∷ (code_processor_timeout, processor_timeout_rule)
    ∷ (code_network_error, network_error_rule)
    ∷ (code_issuer_unavailable, issuer_unavailable_rule)
    ∷ (code_do_not_honor, do_not_honor_rule)
    ∷ (code_rate_limit_exceeded, rate_limit_exceeded_rule)
    ∷ []

-- what the classifier answers for a code that has no rule
abbrev unknown_rule : ClassificationRule
unknown_rule =
    rule hard_decline do_not_retry
      "Unknown failure code encountered. As a fail-safe measure, unknown codes are treated as hard declines to prevent unnecessary retry costs and potential duplicate charges."

abbrev pub rule_or_unknown : Option ClassificationRule → ClassificationRule
rule_or_unknown none = unknown_rule
rule_or_unknown (some r) = r

unfoldable pub classify : {F : Type 0} → FailureEvent F → ClassificationResult
unfolding lookup
classify event = result (rule_or_unknown (lookup event.failure_code rules))
  where
    result : ClassificationRule → ClassificationResult
    result r = record {
      decline_type = r.decline_type;
      strategy = r.strategy;
      failure_code = event.failure_code;
      reasoning = r.reasoning;
    }

-- The interface that the orchestrator takes, with what it relies on: a soft decline has a strategy.
pub record Classifier (F : Type 0) : Type 0 where
  pub classify : FailureEvent F → ClassificationResult
  pub soft_has_strategy :
      (event : FailureEvent F)
      → (classify event).decline_type ≡ soft_decline
      → (classify event).strategy ≢ do_not_retry
