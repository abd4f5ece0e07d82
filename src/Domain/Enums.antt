-- ===== src/Domain/Enums.antt =====
-- internal/domain/enums.go. A string type whose values come from requests (failure codes, processor
-- names) stays a text; one whose values only the program writes is an enumeration with its text.
use smart_retry_orchestrator.Common.{String, List, [], ◌∷◌, Bool, true, false}

abbrev pub FailureReasonCode : Type 0
FailureReasonCode = String

abbrev pub code_insufficient_funds : FailureReasonCode
code_insufficient_funds = "INSUFFICIENT_FUNDS"

abbrev pub code_card_expired : FailureReasonCode
code_card_expired = "CARD_EXPIRED"

abbrev pub code_invalid_card : FailureReasonCode
code_invalid_card = "INVALID_CARD"

abbrev pub code_fraud_suspected : FailureReasonCode
code_fraud_suspected = "FRAUD_SUSPECTED"

abbrev pub code_processor_timeout : FailureReasonCode
code_processor_timeout = "PROCESSOR_TIMEOUT"

abbrev pub code_network_error : FailureReasonCode
code_network_error = "NETWORK_ERROR"

abbrev pub code_issuer_unavailable : FailureReasonCode
code_issuer_unavailable = "ISSUER_UNAVAILABLE"

abbrev pub code_do_not_honor : FailureReasonCode
code_do_not_honor = "DO_NOT_HONOR"

abbrev pub code_rate_limit_exceeded : FailureReasonCode
code_rate_limit_exceeded = "RATE_LIMIT_EXCEEDED"

pub data DeclineType : Type 0 where
  hard_decline soft_decline : DeclineType

unfoldable pub decline_text : DeclineType → String
decline_text hard_decline = "HARD_DECLINE"
decline_text soft_decline = "SOFT_DECLINE"

pub data RetryStrategy : Type 0 where
  do_not_retry immediate delayed alternative_processor : RetryStrategy

unfoldable pub strategy_text : RetryStrategy → String
strategy_text do_not_retry = "DO_NOT_RETRY"
strategy_text immediate = "IMMEDIATE"
strategy_text delayed = "DELAYED"
strategy_text alternative_processor = "ALTERNATIVE_PROCESSOR"

pub data ProcessorState : Type 0 where
  healthy degraded down : ProcessorState

unfoldable pub state_text : ProcessorState → String
state_text healthy = "HEALTHY"
state_text degraded = "DEGRADED"
state_text down = "DOWN"

-- `state == domain.StateDown`
abbrev pub is_down : ProcessorState → Bool
is_down down = true
is_down _ = false

abbrev pub ProcessorName : Type 0
ProcessorName = String

abbrev pub processor_a : ProcessorName
processor_a = "PROCESSOR_A"

abbrev pub processor_b : ProcessorName
processor_b = "PROCESSOR_B"

abbrev pub processor_c : ProcessorName
processor_c = "PROCESSOR_C"

abbrev pub all_processors : List ProcessorName
all_processors = processor_a ∷ processor_b ∷ processor_c ∷ []

pub data TransactionStatus : Type 0 where
  pending hard_declined retrying recovered exhausted : TransactionStatus

unfoldable pub status_text : TransactionStatus → String
status_text pending = "PENDING"
status_text hard_declined = "HARD_DECLINED"
status_text retrying = "RETRYING"
status_text recovered = "RECOVERED"
status_text exhausted = "EXHAUSTED"
