-- ===== src/Concurrent/Lasting.antt =====
-- What holds between any two calls of concurrent requests (internal/orchestrator/orchestrator.go over
-- internal/store/memory.go), and what keeps it.
use smart_retry_orchestrator.Store
use smart_retry_orchestrator.Float.{Float64}
use smart_retry_orchestrator.Orchestrator.State.{
  System, Action, Env, time_now, save, update, draw_float64, health_of, gets, record_health,
  log_decision, pure,
}
use smart_retry_orchestrator.Concurrent.Calls.{
  LightCall, clock, simulate, tracker_read, tracker_write, tracker_reset, adaptive_read,
  adaptive_write, log_write, store_read,
}
use smart_retry_orchestrator.Common.{
  All, ◌≡◌, ◌⊎◌, ◌≤◌, List, [], String, Option-cases, arith, Bool, inl, Bool-cases, ◌&&◌, inr, ◌++◌,
  refl, ◌∷◌, All-append,
}
use smart_retry_orchestrator.Api.Handlers.{reset_store, reset_health}
use smart_retry_orchestrator.Store.{get_transaction, new_memory_store}
use smart_retry_orchestrator.Domain.Errors.{Result, err, ok, not_found, duplicate_id}
use smart_retry_orchestrator.Orchestrator.Process.{with_outcome, is_recoverable}
use smart_retry_orchestrator.Domain.Models.{Transaction, Time}
use smart_retry_orchestrator.Server.{initial_system}
use smart_retry_orchestrator.Store.Refinement.{
  get_transaction-Represents, save_transaction-Represents, Represents,
  update_transaction-Represents, new_memory_store-Represents, fetched, updated,
  save_decision_log-Represents, saved,
}
use smart_retry_orchestrator.Service.Sound.{IsDeclined, and_false, All-find, All-replace}
use smart_retry_orchestrator.Orchestrator.Retry.{record_retry, mark_recovered, simulate_outcome}
use smart_retry_orchestrator.Domain.Enums.{soft_decline, recovered, exhausted, retrying}
use smart_retry_orchestrator.Common.Dict.{lookup}
use smart_retry_orchestrator.Orchestrator.Retry.Chain.{IsBalanced, IsFailure}
use smart_retry_orchestrator.Service.Counted.{record_adaptive-IsCounted, IsCounted}
use smart_retry_orchestrator.Store.Contents.{find, replace}
use smart_retry_orchestrator.Orchestrator.Reasoning.{max_retries}

module _ {F : Type 0} ⦃fl : Float64 F⦄ where
  -- A soft decline whose books balance, with at most three attempts: retried to an end, or waiting for
  -- its first write after the attempts.
  pub record IsTried (tx : Transaction F) : Type 0 where
    pub soft : tx.classification.decline_type ≡ soft_decline
    pub balanced : IsBalanced tx
    pub bounded : tx.retry_count ≤ max_retries
    pub stage :
        (tx.status ≡ recovered)
        ⊎ ((tx.status ≡ exhausted) × All IsFailure tx.retry_attempts)
        ⊎ ((tx.status ≡ retrying) × (tx.retry_attempts ≡ []))

  abbrev pub IsLasting : Transaction F → Type 0
  IsLasting tx = IsDeclined tx ⊎ IsTried tx

  -- The store stands for a list of such transactions; and no adaptive record counts more successes
  -- than outcomes.
  pub record IsConsistent (s : System F) : Type 0 where
    pub transactions : List (Transaction F)
    pub stored : Represents s.store transactions
    pub lasting : All IsLasting transactions
    pub counted : IsCounted s.adaptive_data

  pub with_outcome-IsLasting :
      ⦃env : Env F⦄
      → (now : Time) (b : Bool) (tx : Transaction F) → IsLasting tx
      → IsLasting (with_outcome now b tx)
  unfolding with_outcome mark_recovered
  with_outcome-IsLasting now b tx (inl d) = inl (elim (Bool-cases (b && is_recoverable tx.status)) [
    | inl e ↦ cc (and_false b, d.status, e)
    | inr e ↦ rw e d
  ])
  with_outcome-IsLasting now b tx (inr r) = inr (elim (Bool-cases (b && is_recoverable tx.status)) [
    | inl e ↦ rw e (record {
      soft = r.soft;
      balanced = record {
        count = r.balanced.count;
        numbered = r.balanced.numbered;
        cost = r.balanced.cost;
      };
      bounded = r.bounded;
      stage = inl refl;
    })
    | inr e ↦ rw e r
  ])

  IsConsistent-same :
      (s t : System F)
      → t.store ≡ s.store
      → t.adaptive_data ≡ s.adaptive_data
      → IsConsistent s
      → IsConsistent t
  IsConsistent-same s t e f o = record {
    transactions = o.transactions;
    stored = rw e o.stored;
    lasting = o.lasting;
    counted = rw f o.counted;
  }

  pub IsConsistent-initial_system : IsConsistent initial_system
  unfolding initial_system lookup
  IsConsistent-initial_system = record {
    transactions = [];
    stored = new_memory_store-Represents;
    lasting = tt;
    counted = λ code p. omega arith;
  }

  pub save-IsConsistent :
      (tx : Transaction F) (s : System F)
      → IsLasting tx
      → IsConsistent s
      → IsConsistent (save tx s).1
  unfolding save
  save-IsConsistent tx s h o =
      let r = (save_transaction-Represents s.store o.transactions tx o.stored).1 in
      elim (Option-cases (find tx.id o.transactions)) [
        | inl new ↦ record {
          transactions = o.transactions ++ tx ∷ [];
          stored = rw (new, saved) at r;
          lasting = All-append IsLasting o.transactions (tx ∷ []) o.lasting (h, tt);
          counted = o.counted;
        }
        | inr (old, taken) ↦ record {
          transactions = o.transactions;
          stored = rw (taken, saved) at r;
          lasting = o.lasting;
          counted = o.counted;
        }
      ]

  pub update-IsConsistent :
      (tx : Transaction F) (s : System F)
      → IsLasting tx
      → IsConsistent s
      → IsConsistent (update tx s).1
  unfolding update
  update-IsConsistent tx s h o =
      let r = (update_transaction-Represents s.store o.transactions tx o.stored).1 in
      elim (Option-cases (find tx.id o.transactions)) [
        | inl missing ↦ record {
          transactions = o.transactions;
          stored = rw (missing, updated) at r;
          lasting = o.lasting;
          counted = o.counted;
        }
        | inr (old, e) ↦ record {
          transactions = replace tx o.transactions;
          stored = rw (e, updated) at r;
          lasting = All-replace IsLasting tx o.transactions h o.lasting;
          counted = o.counted;
        }
      ]

  -- What SaveTransaction and UpdateTransaction can return.
  pub save_answers :
      (tx : Transaction F) (s : System F) (Holds : Result (Unit {0}) → Type 0)
      → IsConsistent s
      → Holds (ok tt)
      → Holds (err duplicate_id)
      → Holds (save tx s).0
  unfolding save
  save_answers tx s Holds o h k =
      let e = (save_transaction-Represents s.store o.transactions tx o.stored).0 in
      elim (Option-cases (find tx.id o.transactions)) [
        | inl new ↦ rw (e, new, saved) h
        | inr (old, known) ↦ rw (e, known, saved) k
      ]

  pub update_answers :
      (tx : Transaction F) (s : System F) (Holds : Result (Unit {0}) → Type 0)
      → IsConsistent s
      → Holds (ok tt)
      → Holds (err not_found)
      → Holds (update tx s).0
  unfolding update
  update_answers tx s Holds o h k =
      let e = (update_transaction-Represents s.store o.transactions tx o.stored).0 in
      elim (Option-cases (find tx.id o.transactions)) [
        | inl missing ↦ rw (e, missing, updated) k
        | inr (old, known) ↦ rw (e, known, updated) h
      ]

  -- What GetTransaction returns is a transaction of the list, or the not-found error.
  abbrev pub IsFetched : Result (Transaction F) → Type 0
  IsFetched (err e) = e ≡ not_found
  IsFetched (ok tx) = IsLasting tx

  pub IsFetched-get_transaction :
      (id : String) (s : System F) → IsConsistent s → IsFetched (get_transaction s.store id)
  IsFetched-get_transaction id s o =
      let e = get_transaction-Represents s.store o.transactions id o.stored in
      elim (Option-cases (find id o.transactions)) [
        | inl missing ↦ rw (e, missing, fetched) refl
        | inr (tx, found) ↦
            rw (e, found, fetched) (All-find IsLasting id o.transactions tx found o.lasting)
      ]

  pub reset_store-IsConsistent : (s : System F) → IsConsistent s → IsConsistent (reset_store s).1
  unfolding reset_store Store.reset new_memory_store
  reset_store-IsConsistent s o = record {
    transactions = [];
    stored = new_memory_store-Represents;
    lasting = tt;
    counted = o.counted;
  }

module _ {F : Type 0} ⦃fl : Float64 F⦄ ⦃env : Env F⦄ where
  pub light-IsConsistent :
      {A : Type 0} {m : Action F A}
      → LightCall A m
      → (s : System F) → IsConsistent s
      → IsConsistent (m s).1
  light-IsConsistent clock s = unfold time_now in IsConsistent-same s _ refl refl
  light-IsConsistent (simulate p) s =
      unfold simulate_outcome health_of draw_float64 pure in IsConsistent-same s _ refl refl
  light-IsConsistent (tracker_read p) s = unfold health_of in IsConsistent-same s _ refl refl
  light-IsConsistent (tracker_write p success ts) s =
      unfold record_health in IsConsistent-same s _ refl refl
  light-IsConsistent tracker_reset s = unfold reset_health in IsConsistent-same s _ refl refl
  light-IsConsistent (adaptive_read A f) s = unfold gets in λ o. o
  light-IsConsistent (store_read A f) s = unfold gets in λ o. o
  light-IsConsistent (adaptive_write code p success) s =
      unfold record_retry in
      λ o. record {
        transactions = o.transactions;
        stored = o.stored;
        lasting = o.lasting;
        counted = record_adaptive-IsCounted code p success s.adaptive_data o.counted;
      }
  light-IsConsistent (log_write d) s =
      unfold log_decision in
      λ o. record {
        transactions = o.transactions;
        stored = save_decision_log-Represents s.store o.transactions d o.stored;
        lasting = o.lasting;
        counted = o.counted;
      }
