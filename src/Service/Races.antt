-- ===== src/Service/Races.antt =====
-- A report by RecordRetryOutcome that overlaps with the end of executeRetryChain, for one transaction
-- (internal/orchestrator/orchestrator.go). The mutex of the store makes each of its methods one step,
-- and nothing holds the steps of one request together.
pub mod Stages
pub mod Ends
use smart_retry_orchestrator.Domain.Models.{Time, Transaction}
use smart_retry_orchestrator.Store.{MemoryStore, get_transaction, update_transaction}
use smart_retry_orchestrator.Common.{
  Bool, Option, none, List, false, true, some, ◌≡◌, ◌∙◌, eq_refl, refl, sym, ap, ◌⊎◌, inl, inr,
}
use smart_retry_orchestrator.Store.Refinement.{
  Represents, updated, update_transaction-Represents, get_transaction-Represents, fetched,
}
use smart_retry_orchestrator.Orchestrator.Process.{with_outcome}
use smart_retry_orchestrator.Domain.Errors.{ok, err, not_found}
use smart_retry_orchestrator.Store.Contents.{find, replace, find-replace, found_id}
use smart_retry_orchestrator.Float.{Float64}
use mathlib.Core.Path.{subst}
use mathlib.Core.Option.{some-injective}
use smart_retry_orchestrator.Orchestrator.State.{Env}
use smart_retry_orchestrator.Orchestrator.Process.Reports.{id-with_outcome}

-- The store; the copy that the report has got from GetTransaction; and whether the report and the
-- chain have called UpdateTransaction.
pub record RaceState (F : Type 0) : Type 0 where
  pub store : MemoryStore F
  pub copy : Option (Transaction F)
  pub reported : Bool
  pub finished : Bool

-- before either of the two has begun
abbrev pub before : {F : Type 0} → MemoryStore F → RaceState F
before s = record { store = s; copy = none; reported = false; finished = false }

module _ {F : Type 0} ⦃fl : Float64 F⦄ ⦃env : Env F⦄ (now : Time) (success : Bool)
    (final : Transaction F) where
  -- The store calls of the report, in their order, and the last one of the chain: UpdateTransaction
  -- for the transaction that the chain returns, as Orchestrator/Retry/Last says of it. That is `final`,
  -- which may be any transaction here.
  pub data Step : RaceState F → RaceState F → Type 0 where
    fetch :
        (r : RaceState F) (tx : Transaction F)
        → r.copy ≡ none
        → get_transaction r.store final.id ≡ ok tx
        → Step r (record r { copy = some tx })
    report :
        (r : RaceState F) (tx : Transaction F)
        → r.copy ≡ some tx
        → r.reported ≡ false
        → Step r (record r {
          store = (update_transaction r.store (with_outcome now success tx)).1;
          reported = true;
        })
    finish :
        (r : RaceState F)
        → r.finished ≡ false
        → Step r (record r { store = (update_transaction r.store final).1; finished = true })

  pub data Run (start : RaceState F) : RaceState F → Type 0 where
    begin : Run start start
    then_step : {r t : RaceState F} → Run start r → Step r t → Run start t
