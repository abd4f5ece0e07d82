-- ===== src/Store/Refinement.antt =====
-- MemoryStore (internal/store/memory.go) implements a list of transactions with distinct ids.
use smart_retry_orchestrator.Store.{
  save_transaction, new_memory_store, MemoryStore, save_decision_log, update_transaction,
  get_transaction,
}
use smart_retry_orchestrator.Common.Dict.{lookup, lookup-insert}
use smart_retry_orchestrator.Common.{
  List, [], ◌≡◌, none, String, refl, ◌++◌, ◌∷◌, Option-cases, inl, some, inr,
}
use smart_retry_orchestrator.Domain.Models.{Transaction, RetryDecision}
use smart_retry_orchestrator.Store.Contents.{
  find, ids, Distinct, ids-append, find-append, Distinct-append, replace, ids-replace, find-replace,
  Distinct-replace,
}
use smart_retry_orchestrator.Domain.Errors.{ok, err, duplicate_id, Result, not_found}

-- The store stands for a list: its order is theirs, and its map finds what the list holds.
pub record Represents {F : Type 0} (s : MemoryStore F) (ts : List (Transaction F)) : Type 0 where
  pub order : s.tx_order ≡ ids ts
  pub found : (id : String) → lookup id s.transactions ≡ find id ts
  pub distinct : Distinct ts

module _ {F : Type 0} where
  -- A new store, and a store after Reset, stand for the empty list.
  pub new_memory_store-Represents : Represents (new_memory_store {F = F}) []
  unfolding new_memory_store lookup
  new_memory_store-Represents = record { order = refl; found = λ id. refl; distinct = tt }

  -- What SaveTransaction and UpdateTransaction promise of the list.
  abbrev pub saved : List (Transaction F) → Transaction F → Result (Unit {0}) × List (Transaction F)
  saved ts tx = elim (find tx.id ts) [
    | none ↦ (ok tt, ts ++ tx ∷ [])
    | some _ ↦ (err duplicate_id, ts)
  ]

  abbrev pub updated :
      List (Transaction F) → Transaction F → Result (Unit {0}) × List (Transaction F)
  updated ts tx = elim (find tx.id ts) [
    | none ↦ (err not_found, ts)
    | some _ ↦ (ok tt, replace tx ts)
  ]

  -- Saving a transaction whose id is new succeeds and puts it behind the others; saving one whose id
  -- is taken returns the duplicate error and keeps the list. Map and order stay consistent.
  pub save_transaction-Represents :
      (s : MemoryStore F) (ts : List (Transaction F)) (tx : Transaction F)
      → Represents s ts
      → ((save_transaction s tx).0 ≡ (saved ts tx).0)
        × Represents (save_transaction s tx).1 (saved ts tx).1
  unfolding save_transaction
  save_transaction-Represents s ts tx r = elim (Option-cases (find tx.id ts)) [
    | inl new ↦
        rw (r.found tx.id, new, save_transaction, saved)
          (
            refl,
            record {
              order = rw (r.order, ids-append ts tx) refl;
              found = λ id. rw (lookup-insert tx.id id, r.found id, find-append id tx ts new) refl;
              distinct = Distinct-append ts tx r.distinct new;
            },
          )
    | inr (old, taken) ↦ rw (r.found tx.id, taken, save_transaction, saved) (refl, r)
  ]

  -- Updating a transaction whose id is stored succeeds and puts it in the place of the stored one;
  -- updating one whose id is not returns the not-found error and keeps the list.
  pub update_transaction-Represents :
      (s : MemoryStore F) (ts : List (Transaction F)) (tx : Transaction F)
      → Represents s ts
      → ((update_transaction s tx).0 ≡ (updated ts tx).0)
        × Represents (update_transaction s tx).1 (updated ts tx).1
  unfolding update_transaction
  update_transaction-Represents s ts tx r = elim (Option-cases (find tx.id ts)) [
    | inl e ↦ rw (r.found tx.id, e, update_transaction, updated) (refl, r)
    | inr (old, e) ↦
        rw (r.found tx.id, e, update_transaction, updated)
          (
            refl,
            record {
              order = rw (r.order, ids-replace ts tx) refl;
              found = λ id. rw (lookup-insert tx.id id, r.found id, find-replace id tx ts e) refl;
              distinct = Distinct-replace tx ts r.distinct;
            },
          )
  ]

  pub updated_found :
      (tx : Transaction F) (ts : List (Transaction F)) {old : Transaction F}
      → find tx.id ts ≡ some old
      → updated ts tx ≡ (ok tt, replace tx ts)
  updated_found tx ts e = rw (e, updated) refl

  abbrev pub fetched : List (Transaction F) → String → Result (Transaction F)
  fetched ts id = elim (find id ts) [ none ↦ err not_found | some t ↦ ok t ]

  -- GetTransaction returns the transaction of the list that has the id, or the not-found error.
  pub get_transaction-Represents :
      (s : MemoryStore F) (ts : List (Transaction F)) (id : String)
      → Represents s ts
      → get_transaction s id ≡ fetched ts id
  unfolding get_transaction
  get_transaction-Represents s ts id r = rw (r.found id, get_transaction) refl

  pub save_decision_log-Represents :
      (s : MemoryStore F) (ts : List (Transaction F)) (d : RetryDecision F)
      → Represents s ts
      → Represents (save_decision_log s d) ts
  unfolding save_decision_log
  save_decision_log-Represents s ts d r = record {
    order = r.order;
    found = r.found;
    distinct = r.distinct;
  }
