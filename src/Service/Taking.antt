-- ===== src/Service/Taking.antt =====
-- The loop of cmd/server/main.go that passes events to ProcessFailure: none is refused whose id is new.
use smart_retry_orchestrator.Common.{
  String, List, Bool, ℕ, length, true, keep, ◌∷◌, str_eq, ◌==◌, ◌≡◌, refl, ◌≤◌, ◌++◌, ◌+◌, ◌&&◌,
  some, arith, [], map, All, eq_iff, ◌<◌, ◌≢◌, inl, inr, eq_refl, ap, keep-append, length-append,
  ◌∙◌, sym,
}
use smart_retry_orchestrator.Float.{Float64}
use smart_retry_orchestrator.Datagen.Made.{txn_ids, event_ids}
use smart_retry_orchestrator.Domain.Models.{FailureEvent, Transaction}
use smart_retry_orchestrator.Orchestrator.State.{Env, System}
use smart_retry_orchestrator.Store.Contents.{find, ids, ids-append}
use smart_retry_orchestrator.Classifier.{Classifier}
use smart_retry_orchestrator.Server.{process_events, count_if_ok}
use smart_retry_orchestrator.Service.Sound.{IsSound}
use smart_retry_orchestrator.Store.Refinement.{Represents}
use mathlib.Core.List.{append-nil, append_assoc}
use smart_retry_orchestrator.Service.Failures.{process_failure_cases}
use smart_retry_orchestrator.Common.Text.{concat, padded}
use smart_retry_orchestrator.Orchestrator.Process.{process_failure}
use mathlib.Core.Path.{subst}

abbrev pub occurrences : String → List String → ℕ
occurrences id xs = length (keep (λ x. str_eq x id) xs)

occurrences-here :
    (id : String) (xs : List String) → occurrences id (id ∷ xs) ≡ 1 + occurrences id xs
occurrences-here id xs = rw eq_refl (omega arith)

occurrences-cons :
    (id x : String) (xs : List String)
    → occurrences id (x ∷ xs) ≡ occurrences id (x ∷ []) + occurrences id xs
occurrences-cons id x xs = ground arith

-- each of the texts is new to those after it
abbrev all_new : List String → Bool
all_new [] = true
all_new (x ∷ xs) = (occurrences x xs == 0) && all_new xs

pub occurrences-all_new :
    (id : String) (xs : List String) → all_new xs ≡ true → occurrences id xs ≤ 1
occurrences-all_new id [] new = omega arith
occurrences-all_new id (x ∷ xs) new = ground (arith, eq_iff x id, occurrences-all_new id xs)

pub txn_ids-all_new : all_new (txn_ids 210 0) ≡ true
unfolding concat padded
txn_ids-all_new = refl

module _ {F : Type 0} ⦃fl : Float64 F⦄ where
  occurrences-find :
      (id : String) (ts : List (Transaction F)) (tx : Transaction F)
      → find id ts ≡ some tx
      → 0 < occurrences id (ids ts)
  occurrences-find id [] tx e = cc
  occurrences-find id (t ∷ ts) tx e = ground (arith, occurrences-find id ts tx)

  occurrences-last :
      (id : String) (ts : List (Transaction F)) (tx : Transaction F)
      → occurrences id (ids (ts ++ tx ∷ [])) ≡ occurrences id (ids ts) + occurrences id (tx.id ∷ [])
  occurrences-last id ts tx =
      rw (ids-append ts tx, keep-append)
        (length-append (keep (λ x. str_eq x id) (ids ts)) (keep (λ x. str_eq x id) (tx.id ∷ [])))

  -- No id is stored already or occurs twice.
  abbrev pub AreNew : List (FailureEvent F) → List (Transaction F) → Type 0
  AreNew events ts = (id : String) → occurrences id (event_ids events) + occurrences id (ids ts) ≤ 1

  AreNew-first :
      (event : FailureEvent F) (rest : List (FailureEvent F)) (ts : List (Transaction F))
      (old : Transaction F)
      → AreNew (event ∷ rest) ts
      → find event.transaction_id ts ≢ some old
  AreNew-first event rest ts old new known =
      let id = event.transaction_id in
      omega (arith, new id, occurrences-here id (event_ids rest), occurrences-find id ts old known)

  AreNew-rest :
      (event : FailureEvent F) (rest : List (FailureEvent F)) (ts : List (Transaction F))
      (tx : Transaction F)
      → tx.id ≡ event.transaction_id
      → AreNew (event ∷ rest) ts
      → AreNew rest (ts ++ tx ∷ [])
  AreNew-rest event rest ts tx e new id = omega (
    arith,
    new id,
    occurrences-cons id event.transaction_id (event_ids rest),
    occurrences-last id ts tx,
    ap (λ x. occurrences id (x ∷ [])) e,
    occurrences-cons id event.transaction_id [],
  )

  module _ ⦃env : Env F⦄ ⦃cl : Classifier F⦄ where
    -- The transactions were made from the events, in their order, each as the classifier says.
    pub record IsRecordOf (events : List (FailureEvent F)) (txs : List (Transaction F))
        : Type 0 where
      pub events_kept : map (λ tx. tx.original_event) txs ≡ events
      pub sound : All IsSound txs
      pub classified : All (λ tx. tx.classification ≡ cl.classify tx.original_event) txs

    pub process_events_takes :
        (events : List (FailureEvent F)) (n : ℕ) (s : System F) (ts : List (Transaction F))
        → Represents s.store ts
        → AreNew events ts
        → (txs : List (Transaction F)) × ((process_events events n s).0 ≡ n + length events)
          × Represents (process_events events n s).1.store (ts ++ txs)
          × IsRecordOf events txs
    unfolding process_events count_if_ok
    process_events_takes [] n s ts r new = (
      [],
      omega arith,
      rw append-nil r,
      record { events_kept = refl; sound = tt; classified = tt },
    )
    process_events_takes (event ∷ rest) n s ts r new = elim (process_failure_cases event s ts r) [
      | inl refused ↦ absurd (AreNew-first event rest ts refused.old new refused.known)
      | inr (tx, res, taken) ↦
          let t = (process_failure event s).1 in
          let counted : count_if_ok (process_failure event s).0 n ≡ n + 1 =
            ap (λ r. count_if_ok r n) taken.result in
          let (txs, count, stored, made) =
            process_events_takes rest (n + 1) t (ts ++ tx ∷ []) taken.stored
              (AreNew-rest event rest ts tx taken.id new) in
          (
            tx ∷ txs,
            ap (λ m. (process_events rest m t).0) counted ∙ count ∙ omega arith,
            subst (λ m. Represents (process_events rest m t).1.store (ts ++ tx ∷ txs)) (sym counted)
                (rw (append_assoc ts (tx ∷ []) txs) at stored),
            record {
              events_kept = λ i. taken.event_kept i ∷ made.events_kept i;
              sound = (taken.sound, made.sound);
              classified =
                  (taken.classified ∙ ap cl.classify (sym taken.event_kept), made.classified);
            },
          )
    ]
