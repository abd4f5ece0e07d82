-- ===== src/Store.antt =====
-- internal/store: MemoryStore. The mutex makes each method one step. Saved and returned values are
-- copies, so a transaction is a value here; `none` from a listing is the panic of a nil pointer.
pub mod Contents
pub mod Refinement
pub mod Listing
use mathlib.Core.Option
use smart_retry_orchestrator.Common.{none, some}
use smart_retry_orchestrator.Domain.Enums.{status_text}
use smart_retry_orchestrator.Common.{
  [], String, ℕ, Option, Bool, List, true, some, str_eq, ◌∷◌, ◌++◌, ◌&&◌, if◌then◌else◌, ◌==◌, ltb,
  length, leb, drop, take, ◌||◌,
}
use smart_retry_orchestrator.Domain.Models.{Transaction, Time, RetryDecision, TransactionFilter}
use smart_retry_orchestrator.Common.Dict.{Dict, get_or, lookup, insert}
use smart_retry_orchestrator.Domain.Errors.{Result, err, duplicate_id, ok, not_found}

pub record MemoryStore (F : Type 0) : Type 0 where
  pub transactions : Dict (Transaction F)
  pub decisions : Dict (List (RetryDecision F))
  pub tx_order : List String

-- the two `continue`s of ListTransactions; a nil pointer filters nothing
abbrev equals : String → Option String → Bool
equals text none = true
equals text (some wanted) = str_eq text wanted

module _ {F : Type 0} where
  unfoldable pub new_memory_store : MemoryStore F
  new_memory_store = record { transactions = []; decisions = []; tx_order = [] }

  unfoldable pub save_transaction :
      MemoryStore F → Transaction F → Result (Unit {0}) × MemoryStore F
  save_transaction s tx = elim (lookup tx.id s.transactions) [
    | some _ ↦ (err duplicate_id, s)
    | none ↦ (
      ok tt,
      record s {
        transactions = insert tx.id tx s.transactions;
        tx_order = s.tx_order ++ tx.id ∷ [];
      },
    )
  ]

  unfoldable pub get_transaction : MemoryStore F → String → Result (Transaction F)
  get_transaction s id = elim (lookup id s.transactions) [ none ↦ err not_found | some tx ↦ ok tx ]

  unfoldable pub update_transaction :
      MemoryStore F → Transaction F → Result (Unit {0}) × MemoryStore F
  update_transaction s tx = elim (lookup tx.id s.transactions) [
    | none ↦ (err not_found, s)
    | some _ ↦ (ok tt, record s { transactions = insert tx.id tx s.transactions })
  ]

  unfoldable pub matches : TransactionFilter → Transaction F → Bool
  unfolding status_text
  matches filter tx =
      equals (status_text tx.status) filter.status
      && equals tx.original_event.processor filter.processor

  -- the loop over txOrder that keeps what passes a test
  unfoldable pub collect :
      (Transaction F → Bool) → Dict (Transaction F) → List String → Option (List (Transaction F))
  collect test transactions [] = some []
  collect test transactions (id ∷ rest) =
      let later = collect test transactions rest in
      elim (lookup id transactions) [
        | none ↦ none
        | some tx ↦ Option.map (λ result. if test tx then tx ∷ result else result) later
      ]

  unfoldable pub apply_offset : ℕ → List (Transaction F) → List (Transaction F)
  apply_offset offset result =
      if ltb 0 offset
      then (if leb (length result) offset then [] else drop offset result)
      else result

  unfoldable pub apply_limit : ℕ → List (Transaction F) → List (Transaction F)
  apply_limit limit result =
      if ltb 0 limit && ltb limit (length result) then take limit result else result

  unfoldable pub list_transactions :
      MemoryStore F → TransactionFilter → Option (List (Transaction F))
  unfolding matches collect apply_offset apply_limit
  list_transactions s filter =
      Option.map (λ result. apply_limit filter.limit (apply_offset filter.offset result))
        (collect (matches filter) s.transactions s.tx_order)

  unfoldable pub save_decision_log : MemoryStore F → RetryDecision F → MemoryStore F
  save_decision_log s decision =
      let logs = get_or [] (lookup decision.transaction_id s.decisions) in
      record s { decisions = insert decision.transaction_id (logs ++ decision ∷ []) s.decisions }

  unfoldable pub get_decision_logs : MemoryStore F → String → List (RetryDecision F)
  get_decision_logs s id = get_or [] (lookup id s.decisions)

  -- Equal or After the start, and Equal or Before the end
  unfoldable pub in_range : (start end : Time) → Transaction F → Bool
  in_range start end tx =
      (tx.created_at == start || ltb start tx.created_at)
      && (tx.created_at == end || ltb tx.created_at end)

  unfoldable pub get_all_transactions_in_range :
      MemoryStore F → (start end : Time) → Option (List (Transaction F))
  unfolding collect in_range
  get_all_transactions_in_range s start end = collect (in_range start end) s.transactions s.tx_order

  unfoldable pub reset : MemoryStore F → MemoryStore F
  unfolding new_memory_store
  reset s = new_memory_store
