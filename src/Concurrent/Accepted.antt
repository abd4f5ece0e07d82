-- ===== src/Concurrent/Accepted.antt =====
-- Two failures with one id that are submitted at the same time (internal/orchestrator/orchestrator.go
-- over internal/store/memory.go).
use smart_retry_orchestrator.Float.{Float64}
use smart_retry_orchestrator.Orchestrator.State.{
  System, Action, Env, save, update, gets, time_now, draw_float64, health_of, record_health,
  log_decision, pure,
}
use smart_retry_orchestrator.Concurrent.Calls.{
  LightCall, clock, simulate, tracker_read, tracker_write, tracker_reset, adaptive_read,
  adaptive_write, log_write, store_read, step, more, done, calls_if,
}
use smart_retry_orchestrator.Domain.Models.{Transaction, FailureEvent, ClassificationResult}
use smart_retry_orchestrator.Domain.Errors.{ok, err, duplicate_id, wrapped}
use smart_retry_orchestrator.Store.{update_transaction, save_transaction, save_decision_log}
use smart_retry_orchestrator.Api.Handlers.{reset_health}
use smart_retry_orchestrator.Common.{
  String, ◌≡◌, Option-cases, inl, Bool-cases, some, sym, refl, str_eq, inr, List, ◌∷◌, [],
}
use smart_retry_orchestrator.Orchestrator.Retry.{record_retry, new_transaction, simulate_outcome}
use smart_retry_orchestrator.Common.Dict.{insert, lookup, lookup-insert_self, lookup-insert}
use mathlib.Core.Path.{subst}
use smart_retry_orchestrator.Classifier.{Classifier}
use smart_retry_orchestrator.Concurrent.Bounded.{drive}
use smart_retry_orchestrator.Concurrent.Orchestrated.{
  process_hard_calls, or_wrap_calls, process_failure_calls, process_soft_calls,
}
use smart_retry_orchestrator.Orchestrator.Process.Outcomes.{saving_text}
use smart_retry_orchestrator.Domain.Enums.{
  hard_decline, hard_declined, soft_decline, DeclineType, retrying,
}
use smart_retry_orchestrator.Orchestrator.Process.{is_hard}

module _ {F : Type 0} where
  -- a transaction of this id is stored
  abbrev IsTaken : String → System F → Type 0
  IsTaken id s = (old : Transaction F) × (lookup id s.store.transactions ≡ some old)

  IsTaken-same :
      (id : String) (s t : System F)
      → t.store.transactions ≡ s.store.transactions
      → IsTaken id s
      → IsTaken id t
  IsTaken-same id s t e (old, h) = (old, rw e h)

  IsTaken-insert :
      (id : String) (tx : Transaction F) (s t : System F)
      → t.store.transactions ≡ insert tx.id tx s.store.transactions
      → IsTaken id s
      → IsTaken id t
  IsTaken-insert id tx s t e (old, h) = elim (Bool-cases (str_eq tx.id id)) [
    | inl same ↦ (tx, rw (e, lookup-insert tx.id id, same) refl)
    | inr other ↦ (old, rw (e, lookup-insert tx.id id, other) h)
  ]

  IsTaken-save :
      (id : String) (tx : Transaction F) (s : System F) → IsTaken id s → IsTaken id (save tx s).1
  unfolding save save_transaction
  IsTaken-save id tx s h = elim (Option-cases (lookup tx.id s.store.transactions)) [
    | inl new ↦ IsTaken-insert id tx s (save tx s).1 (rw (new, save, save_transaction) refl) h
    | inr (old, known) ↦ IsTaken-same id s (save tx s).1 (rw (known, save, save_transaction) refl) h
  ]

  IsTaken-update :
      (id : String) (tx : Transaction F) (s : System F) → IsTaken id s → IsTaken id (update tx s).1
  unfolding update update_transaction
  IsTaken-update id tx s h = elim (Option-cases (lookup tx.id s.store.transactions)) [
    | inl missing ↦
        IsTaken-same id s (update tx s).1 (rw (missing, update, update_transaction) refl) h
    | inr (old, known) ↦
        IsTaken-insert id tx s (update tx s).1 (rw (known, update, update_transaction) refl) h
  ]

  -- What SaveTransaction accepted is stored; what it finds stored it refuses.
  save_accepts :
      (tx : Transaction F) (s : System F) → (save tx s).0 ≡ ok tt → IsTaken tx.id (save tx s).1
  unfolding save save_transaction
  save_accepts tx s e = elim (Option-cases (lookup tx.id s.store.transactions)) [
    | inl new ↦ (tx, rw (new, save, save_transaction, lookup-insert_self) refl)
    | inr (old, known) ↦ cc (rw (known, save, save_transaction) at e)
  ]

  save_refuses :
      (tx : Transaction F) (s : System F) → IsTaken tx.id s → save tx s ≡ (err duplicate_id, s)
  unfolding save save_transaction
  save_refuses tx s (old, h) = rw (h, save, save_transaction) refl

module _ {F : Type 0} ⦃fl : Float64 F⦄ ⦃env : Env F⦄ where
  -- Calls of any requests, none of which empties the store.
  pub data Between : System F → System F → Type 1 where
    no_calls : {s : System F} → Between s s
    light_call :
        {A : Type 0} {m : Action F A} {s t : System F}
        → LightCall A m
        → Between (m s).1 t
        → Between s t
    save_call : {s t : System F} (tx : Transaction F) → Between (save tx s).1 t → Between s t
    update_call : {s t : System F} (tx : Transaction F) → Between (update tx s).1 t → Between s t

  IsTaken-light :
      {A : Type 0} {m : Action F A} (id : String) (k : LightCall A m) (s : System F)
      → IsTaken id s
      → IsTaken id (m s).1
  unfolding simulate_outcome pure time_now draw_float64 health_of record_health reset_health gets
      record_retry log_decision save_decision_log
  IsTaken-light id clock s h = h
  IsTaken-light id (simulate p) s h = h
  IsTaken-light id (tracker_read p) s h = h
  IsTaken-light id (tracker_write p success ts) s h = h
  IsTaken-light id tracker_reset s h = h
  IsTaken-light id (adaptive_read A f) s h = h
  IsTaken-light id (adaptive_write code p success) s h = h
  IsTaken-light id (log_write d) s h = h
  IsTaken-light id (store_read A f) s h = h

  IsTaken-Between : (id : String) {s t : System F} → Between s t → IsTaken id s → IsTaken id t
  IsTaken-Between id no_calls h = h
  IsTaken-Between id (light_call {s} k rest) h = IsTaken-Between id rest (IsTaken-light id k s h)
  IsTaken-Between id (save_call {s} tx rest) h = IsTaken-Between id rest (IsTaken-save id tx s h)
  IsTaken-Between id (update_call {s} tx rest) h =
      IsTaken-Between id rest (IsTaken-update id tx s h)

  -- Once SaveTransaction has accepted a transaction, its id is taken, whatever requests call after
  -- that, as long as none empties the store.
  IsTaken-accepted :
      (tx : Transaction F) (s t : System F)
      → (save tx s).0 ≡ ok tt
      → Between (save tx s).1 t
      → IsTaken tx.id t
  IsTaken-accepted tx s t accepted rest = IsTaken-Between tx.id rest (save_accepts tx s accepted)

  drive-done : {A : Type 0} (a : A) (states : List (System F)) → drive (done a) states ≡ done a
  unfolding drive
  drive-done a [] = refl
  drive-done a (s ∷ states) = refl

  drive-process_hard :
      (event : FailureEvent F) (c : ClassificationResult) (t after : System F)
      (rest : List (System F))
      → IsTaken event.transaction_id t
      → drive (more (process_hard_calls event c)) (t ∷ after ∷ rest)
        ≡ done (err (wrapped (saving_text hard_decline) duplicate_id))
  unfolding drive step process_hard_calls or_wrap_calls new_transaction
  drive-process_hard event c t after rest h =
      rw (save_refuses (new_transaction hard_declined event c) t h) (drive-done _ rest)

  drive-process_soft :
      (event : FailureEvent F) (c : ClassificationResult) (t after : System F)
      (rest : List (System F))
      → IsTaken event.transaction_id t
      → drive (more (process_soft_calls event c)) (t ∷ after ∷ rest)
        ≡ done (err (wrapped (saving_text soft_decline) duplicate_id))
  unfolding drive step process_soft_calls or_wrap_calls new_transaction
  drive-process_soft event c t after rest h =
      rw (save_refuses (new_transaction retrying event c) t h) (drive-done _ rest)

  drive-either :
      (d : DeclineType) (event : FailureEvent F) (c : ClassificationResult) (t after : System F)
      (rest : List (System F))
      → IsTaken event.transaction_id t
      → drive
          (more (calls_if (is_hard d) (process_hard_calls event c) (process_soft_calls event c)))
          (t ∷ after ∷ rest)
        ≡ done (err (wrapped (saving_text d) duplicate_id))
  unfolding calls_if
  drive-either hard_decline event c = drive-process_hard event c
  drive-either soft_decline event c = drive-process_soft event c

  -- Once SaveTransaction has accepted a transaction, and whatever requests call after that, as long as
  -- none empties the store: a ProcessFailure for the same id, which recorded its failure in the tracker
  -- at any time before or after and which saves its transaction now, returns the duplicate error with
  -- its next step, whatever state that finds.
  pub accepted_once :
      ⦃cl : Classifier F⦄
      → (first : Transaction F) (event : FailureEvent F) (s began t after : System F)
        (rest : List (System F))
      → event.transaction_id ≡ first.id
      → (save first s).0 ≡ ok tt
      → Between (save first s).1 t
      → drive (more (process_failure_calls event)) (began ∷ t ∷ after ∷ rest)
        ≡ done (err (wrapped (saving_text (cl.classify event).decline_type) duplicate_id))
  unfolding drive step process_failure_calls
  accepted_once ⦃cl⦄ first event s began t after rest same accepted calls =
      let c = cl.classify event in
      drive-either c.decline_type event c t after rest
        (subst (λ id. IsTaken id t) (sym same) (IsTaken-accepted first s t accepted calls))
