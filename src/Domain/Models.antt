-- ===== src/Domain/Models.antt =====
-- internal/domain/models.go. An instant is its distance, in nanoseconds, from a fixed instant that
-- lies before every time that a request or the clock can give. Counters are Go's 64-bit `int`,
-- which no sequence of requests can bring near its bound; they are plain numbers here.
use smart_retry_orchestrator.Common.{ℕ, ◌*◌, String, Bool, List, [], ◌∷◌, Option}
use smart_retry_orchestrator.Common.Dict.{Dict, lookup, get_or}
use smart_retry_orchestrator.Domain.Enums.{
  FailureReasonCode, DeclineType, RetryStrategy, ProcessorState, ProcessorName, TransactionStatus,
  processor_a, processor_b, processor_c,
}
use smart_retry_orchestrator.Float.{Float64}

abbrev pub Time : Type 0
Time = ℕ

abbrev pub second : ℕ
second = 1_000_000_000

abbrev pub minute : ℕ
minute = 60 * second

pub record FailureEvent (F : Type 0) : Type 0 where
  pub transaction_id : String
  pub amount : F
  pub currency : String
  pub failure_code : FailureReasonCode
  pub processor : ProcessorName
  pub card_type : String
  pub bin : String
  pub country : String
  pub timestamp : Time
  pub metadata : Dict String

pub record ClassificationResult : Type 0 where
  pub decline_type : DeclineType
  pub strategy : RetryStrategy
  pub failure_code : FailureReasonCode
  pub reasoning : String

pub record RetryAttempt (F : Type 0) : Type 0 where
  pub attempt_number : ℕ
  pub processor : ProcessorName
  pub strategy : RetryStrategy
  pub success : Bool
  pub cost : F
  pub delay_seconds : F
  pub reasoning : String
  pub timestamp : Time

pub record Transaction (F : Type 0) : Type 0 where
  pub id : String
  pub original_event : FailureEvent F
  pub classification : ClassificationResult
  pub status : TransactionStatus
  pub retry_count : ℕ
  pub max_retries : ℕ
  pub retry_attempts : List (RetryAttempt F)
  pub total_cost : F
  pub created_at : Time
  pub updated_at : Time
  pub recovered_at : Option Time

pub record RetryDecision (F : Type 0) : Type 0 where
  pub transaction_id : String
  pub attempt_number : ℕ
  pub source_processor : ProcessorName
  pub target_processor : ProcessorName
  pub strategy : RetryStrategy
  pub reasoning : String
  pub delay_seconds : F
  pub timestamp : Time

pub record ProcessorHealthSnapshot (F : Type 0) : Type 0 where
  pub processor : ProcessorName
  pub state : ProcessorState
  pub failure_rate : F
  pub total_events : ℕ
  pub failures : ℕ
  pub successes : ℕ
  pub window_start : Time
  pub window_end : Time

pub record ProcessFailureResult (F : Type 0) : Type 0 where
  pub transaction_id : String
  pub classification : ClassificationResult
  pub should_retry : Bool
  pub retry_attempts : List (RetryAttempt F)
  pub final_status : TransactionStatus
  pub total_cost : F
  pub reasoning : String

pub record RecoveryMetrics (F : Type 0) : Type 0 where
  pub total_transactions : ℕ
  pub hard_declines : ℕ
  pub soft_declines : ℕ
  pub recovered : ℕ
  pub exhausted : ℕ
  pub recovery_rate : F
  pub total_retries_attempted : ℕ
  pub total_revenue_at_risk : F
  pub revenue_recovered : F
  pub total_retry_cost : F
  pub average_retry_latency : F
  pub failure_code_breakdown : Dict ℕ
  pub start : Time
  pub end : Time

pub record ProcessorMetrics (F : Type 0) : Type 0 where
  pub processor : ProcessorName
  pub total_attempts : ℕ
  pub successes : ℕ
  pub failures : ℕ
  pub success_rate : F
  pub total_cost : F
  pub current_health : ProcessorHealthSnapshot F

-- A nil pointer is `none`. `limit` and `offset` are 0 when absent; no caller makes them negative.
pub record TransactionFilter : Type 0 where
  pub status : Option String
  pub processor : Option ProcessorName
  pub limit : ℕ
  pub offset : ℕ

pub record AdaptiveWeight (F : Type 0) : Type 0 where
  pub failure_code : FailureReasonCode
  pub weights : Dict F
  pub sample_count : Dict ℕ

-- ProcessorCost[p]; a name that is not in the map costs the zero value.
module _ {F : Type 0} ⦃fl : Float64 F⦄ where
  abbrev pub processor_costs : Dict F
  processor_costs =
      (processor_a, fl.lit 30 100)
      ∷ (processor_b, fl.lit 25 100)
      ∷ (processor_c, fl.lit 20 100)
      ∷ []

  unfoldable pub processor_cost : ProcessorName → F
  unfolding lookup
  processor_cost p = get_or (fl.lit 0 1) (lookup p processor_costs)
