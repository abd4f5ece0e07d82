-- ===== src/Orchestrator/Reasoning/Narrative.antt =====
-- buildChainReasoning of internal/orchestrator/orchestrator.go.
use smart_retry_orchestrator.Float.{Float64}
use smart_retry_orchestrator.Domain.Enums.{
  TransactionStatus, ProcessorName, recovered, decline_text, strategy_text,
}
use smart_retry_orchestrator.Domain.Models.{Transaction, RetryAttempt}
use smart_retry_orchestrator.Common.{
  ℕ, List, Bool, String, ◌∷◌, true, [], false, if◌then◌else◌, length, ◌+◌,
}
use smart_retry_orchestrator.Common.Text.{concat, decimal}

is_recovered : TransactionStatus → Bool
is_recovered recovered = true
is_recovered _ = false

module _ {F : Type 0} ⦃fl : Float64 F⦄ where
  attempt_text : ℕ → RetryAttempt F → String
  attempt_text i attempt = concat (
      "Attempt "
      ∷ decimal ((i + 1))
      ∷ ": "
      ∷ (strategy_text attempt.strategy)
      ∷ " via "
      ∷ attempt.processor
      ∷ " ("
      ∷ (if attempt.success then "SUCCEEDED" else "FAILED")
      ∷ ", cost: $"
      ∷ fl.fixed 2 attempt.cost
      ∷ delay_text
      ∷ "). "
      ∷ [])
    where
      delay_text : String
      delay_text =
          if fl.lt (fl.lit 0 1) attempt.delay_seconds
          then concat (", delay: " ∷ fl.fixed 0 attempt.delay_seconds ∷ "s" ∷ [])
          else ""

  attempts_text : ℕ → List (RetryAttempt F) → String
  unfolding attempt_text
  attempts_text i [] = ""
  attempts_text i (attempt ∷ rest) =
      concat (attempt_text i attempt ∷ attempts_text (i + 1) rest ∷ [])

  last_processor : ProcessorName → List (RetryAttempt F) → ProcessorName
  last_processor p [] = p
  last_processor p (attempt ∷ rest) = last_processor attempt.processor rest

  outcome_text : Transaction F → String
  unfolding last_processor is_recovered
  outcome_text tx =
      let last = last_processor "" tx.retry_attempts in
      if is_recovered tx.status
      then concat (
          "OUTCOME: Recovered after "
          ∷ decimal ((length tx.retry_attempts))
          ∷ " attempt(s) — final success on "
          ∷ last
          ∷ ". Total retry cost: $"
          ∷ fl.fixed 2 tx.total_cost
          ∷ ". Revenue of $"
          ∷ fl.fixed 2 tx.original_event.amount
          ∷ " "
          ∷ tx.original_event.currency
          ∷ " recovered."
          ∷ [])
      else concat (
          "OUTCOME: Exhausted all "
          ∷ decimal ((length tx.retry_attempts))
          ∷ " retry attempts — last failure on "
          ∷ last
          ∷ ". Total retry cost: $"
          ∷ fl.fixed 2 tx.total_cost
          ∷ ". Revenue of $"
          ∷ fl.fixed 2 tx.original_event.amount
          ∷ " "
          ∷ tx.original_event.currency
          ∷ " could not be recovered."
          ∷ [])

  unfoldable pub build_chain_reasoning : Transaction F → String
  unfolding attempts_text outcome_text
  build_chain_reasoning tx = elim tx.retry_attempts [
    | [] ↦ "No retry attempts were made for this transaction."
    | _ ∷ _ ↦ concat (
        concat (
          "Transaction "
          ∷ tx.id
          ∷ " (failure code: "
          ∷ tx.original_event.failure_code
          ∷ ", amount: $"
          ∷ fl.fixed 2 tx.original_event.amount
          ∷ " "
          ∷ tx.original_event.currency
          ∷ ", original processor: "
          ∷ tx.original_event.processor
          ∷ "). "
          ∷ [])
        ∷ concat (
            "Classification: "
            ∷ (decline_text tx.classification.decline_type)
            ∷ " decline → strategy: "
            ∷ (strategy_text tx.classification.strategy)
            ∷ ". "
            ∷ [])
        ∷ attempts_text 0 tx.retry_attempts
        ∷ outcome_text tx
        ∷ [])
  ]
