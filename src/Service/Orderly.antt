-- ===== src/Service/Orderly.antt =====
-- What holds of the service (internal/orchestrator/orchestrator.go, internal/store/memory.go) between
-- two requests, and the actions that keep it.
use smart_retry_orchestrator.Float.{Float64}
use smart_retry_orchestrator.Orchestrator.State.{System, Env, gets, Action, pure, time_now, ◌>>=◌}
use smart_retry_orchestrator.Api.Handlers.{reset_stores}
use smart_retry_orchestrator.Server.{initial_system}
use smart_retry_orchestrator.Common.{
  Bool, List, String, [], ◌≡◌, if◌then◌else◌, arith, All, refl, true, Option-cases, false, inl,
  none, inr, ◌⊎◌, ◌++◌, some, ◌∷◌, All-append,
}
use smart_retry_orchestrator.Store.{new_memory_store}
use smart_retry_orchestrator.Classifier.{Classifier}
use smart_retry_orchestrator.Domain.Models.{Transaction, FailureEvent}
use smart_retry_orchestrator.Common.Dict.{lookup}
use smart_retry_orchestrator.Store.Refinement.{new_memory_store-Represents, Represents}
use smart_retry_orchestrator.Orchestrator.Quiet.{IsQuiet}
use smart_retry_orchestrator.Domain.Enums.{ProcessorName}
use smart_retry_orchestrator.Orchestrator.Process.{
  record_retry_outcome, process_failure, with_outcome,
}
use smart_retry_orchestrator.Service.Counted.{
  IsCounted, IsCounting-process_failure, IsCounting-record_retry_outcome,
}
use smart_retry_orchestrator.Service.Sound.{IsSound, All-replace, with_outcome-IsSound, All-find}
use smart_retry_orchestrator.Service.Failures.{Processed, process_failure_cases}
use smart_retry_orchestrator.Store.Contents.{find, replace}
use smart_retry_orchestrator.Orchestrator.Process.Reports.{
  record_retry_outcome_missing, record_retry_outcome_effect,
}
use smart_retry_orchestrator.Store

-- The store stands for a list of transactions, each of them finished; and no adaptive record counts
-- more successes than outcomes.
pub record IsOrderly {F : Type 0} ⦃fl : Float64 F⦄ (s : System F) : Type 0 where
  pub transactions : List (Transaction F)
  pub stored : Represents s.store transactions
  pub sound : All IsSound transactions
  pub counted : IsCounted s.adaptive_data

pub record IsKeeping {F A : Type 0} ⦃fl : Float64 F⦄ (m : Action F A) : Type 0 where
  pub at : (s : System F) → IsOrderly s → IsOrderly (m s).1

module _ {F : Type 0} ⦃fl : Float64 F⦄ where
  IsOrderly-same :
      (s t : System F)
      → t.store ≡ s.store
      → t.adaptive_data ≡ s.adaptive_data
      → IsOrderly s
      → IsOrderly t
  IsOrderly-same s t e f o = record {
    transactions = o.transactions;
    stored = rw e o.stored;
    sound = o.sound;
    counted = rw f o.counted;
  }

  pub IsKeeping-IsQuiet : {A : Type 0} (m : Action F A) → IsQuiet m → IsKeeping m
  IsKeeping-IsQuiet m q = record {
    at = λ s. IsOrderly-same s (m s).1 (q.at s).store (q.at s).adaptive;
  }

  pub IsKeeping-pure : {A : Type 0} (a : A) → IsKeeping {F = F} (pure a)
  unfolding pure
  IsKeeping-pure a = record { at = λ s o. o }

  pub IsKeeping-gets : {A : Type 0} (f : System F → A) → IsKeeping (gets f)
  unfolding gets
  IsKeeping-gets f = record { at = λ s o. o }

  pub IsKeeping-if :
      {A : Type 0} (b : Bool) (m n : Action F A)
      → IsKeeping m
      → IsKeeping n
      → IsKeeping (if b then m else n)
  IsKeeping-if true m n p q = p
  IsKeeping-if false m n p q = q

  pub IsKeeping-bind :
      {A B : Type 0} (m : Action F A) (f : A → Action F B)
      → IsKeeping m
      → ((a : A) → IsKeeping (f a))
      → IsKeeping (m >>= f)
  IsKeeping-bind m f p q = record { at = λ s o. (q (m s).0).at (m s).1 (p.at s o) }

  pub IsKeeping-reset_stores : IsKeeping {F = F} reset_stores
  unfolding reset_stores Store.reset new_memory_store
  IsKeeping-reset_stores = record {
    at = λ s o. record {
      transactions = [];
      stored = new_memory_store-Represents;
      sound = tt;
      counted = o.counted;
    };
  }

  pub IsOrderly-initial_system : IsOrderly {F = F} initial_system
  unfolding initial_system lookup
  IsOrderly-initial_system = record {
    transactions = [];
    stored = new_memory_store-Represents;
    sound = tt;
    counted = λ code p. omega arith;
  }

module _ {F : Type 0} ⦃fl : Float64 F⦄ ⦃env : Env F⦄ where
  pub IsKeeping-time_now : IsKeeping {F = F} time_now
  unfolding time_now
  IsKeeping-time_now = record { at = λ s. IsOrderly-same s _ refl refl }

  IsOrderly-processed :
      ⦃cl : Classifier F⦄
      → (event : FailureEvent F) (s : System F) (o : IsOrderly s)
      → IsCounted (process_failure event s).1.adaptive_data
      → Processed event s o.transactions
      → IsOrderly (process_failure event s).1
  IsOrderly-processed event s o counted (inl refused) = record {
    transactions = o.transactions;
    stored = rw refused.kept o.stored;
    sound = o.sound;
    counted = counted;
  }
  IsOrderly-processed event s o counted (inr (tx, res, taken)) = record {
    transactions = o.transactions ++ tx ∷ [];
    stored = taken.stored;
    sound = All-append IsSound o.transactions (tx ∷ []) o.sound (taken.sound, tt);
    counted = counted;
  }

  pub IsKeeping-process_failure :
      ⦃cl : Classifier F⦄ → (event : FailureEvent F) → IsKeeping (process_failure event)
  IsKeeping-process_failure event = record {
    at = λ s o.
        IsOrderly-processed event s o ((IsCounting-process_failure event).at s o.counted)
          (process_failure_cases event s o.transactions o.stored);
  }

  IsOrderly-reported :
      (id : String) (p : ProcessorName) (b : Bool) (s : System F) (o : IsOrderly s)
      → IsCounted (record_retry_outcome id p b s).1.adaptive_data
      → (find id o.transactions ≡ none) ⊎ (tx : Transaction F) × (find id o.transactions ≡ some tx)
      → IsOrderly (record_retry_outcome id p b s).1
  IsOrderly-reported id p b s o counted (inl missing) =
      rw (record_retry_outcome_missing id p b s o.transactions o.stored missing) o
  IsOrderly-reported id p b s o counted (inr (tx, found)) =
      let now = env.now s.clock_reads in
      let (_, stored, _, _) =
        record_retry_outcome_effect id p b s o.transactions tx o.stored found in
      record {
        transactions = replace (with_outcome now b tx) o.transactions;
        stored = unfold with_outcome in stored;
        sound =
            All-replace IsSound (with_outcome now b tx) o.transactions
              (with_outcome-IsSound now b tx (All-find IsSound id o.transactions tx found o.sound))
              o.sound;
        counted = counted;
      }

  pub IsKeeping-record_retry_outcome :
      (id : String) (p : ProcessorName) (b : Bool) → IsKeeping {F = F} (record_retry_outcome id p b)
  IsKeeping-record_retry_outcome id p b = record {
    at = λ s o.
        IsOrderly-reported id p b s o ((IsCounting-record_retry_outcome id p b).at s o.counted)
          (Option-cases (find id o.transactions));
  }
