-- ===== src/Service/Sound.antt =====
-- What the orchestrator (internal/orchestrator/orchestrator.go) leaves in the store.
use smart_retry_orchestrator.Float.{Float64}
use smart_retry_orchestrator.Orchestrator.Process.{with_outcome, is_recoverable}
use smart_retry_orchestrator.Domain.Models.{Transaction, Time}
use smart_retry_orchestrator.Orchestrator.Retry.{mark_recovered}
use smart_retry_orchestrator.Common.{
  String, ◌⊎◌, ◌≡◌, List, All, Bool, inl, inr, some, ◌∷◌, [], Bool-cases, str_eq, ◌≤◌, ◌&&◌, false,
  true, refl,
}
use smart_retry_orchestrator.Store.Contents.{find, replace}
use smart_retry_orchestrator.Domain.Enums.{
  hard_decline, soft_decline, hard_declined, recovered, exhausted,
}
use mathlib.Core.Path.{subst}
use smart_retry_orchestrator.Orchestrator.Retry.Chain.{IsBalanced, IsClosed, IsFailure}
use mathlib.Core.Option.{some-injective}
use smart_retry_orchestrator.Orchestrator.Reasoning.{max_retries}
use smart_retry_orchestrator.Orchestrator.State.{Env}

pub and_false : (b : Bool) → (b && false) ≡ false
and_false true = refl
and_false false = refl

module _ {F : Type 0} ⦃fl : Float64 F⦄ where
  -- A hard decline is stored as such, and was never retried.
  pub record IsDeclined (tx : Transaction F) : Type 0 where
    pub hard : tx.classification.decline_type ≡ hard_decline
    pub status : tx.status ≡ hard_declined
    pub untried : tx.retry_attempts ≡ []

  -- A soft decline has been retried to an end: its books balance, it has at most three attempts, and
  -- if it is EXHAUSTED all of them failed.
  pub record IsRetried (tx : Transaction F) : Type 0 where
    pub soft : tx.classification.decline_type ≡ soft_decline
    pub balanced : IsBalanced tx
    pub bounded : tx.retry_count ≤ max_retries
    pub ended :
        (tx.status ≡ recovered) ⊎ ((tx.status ≡ exhausted) × All IsFailure tx.retry_attempts)

  abbrev pub IsSound : Transaction F → Type 0
  IsSound tx = IsDeclined tx ⊎ IsRetried tx

  pub IsRetried-IsClosed :
      (tx : Transaction F)
      → tx.classification.decline_type ≡ soft_decline
      → IsClosed tx
      → IsRetried tx
  IsRetried-IsClosed tx soft closed = record {
    soft = soft;
    balanced = closed.balanced;
    bounded = closed.bounded;
    ended = elim closed.ended [ inl (e, well) ↦ inl e | inr e ↦ inr e ];
  }

  pub with_outcome-IsSound :
      ⦃env : Env F⦄
      → (now : Time) (b : Bool) (tx : Transaction F) → IsSound tx
      → IsSound (with_outcome now b tx)
  unfolding with_outcome mark_recovered
  with_outcome-IsSound now b tx (inl d) = inl (elim (Bool-cases (b && is_recoverable tx.status)) [
    | inl e ↦ cc (and_false b, d.status, e)
    | inr e ↦ rw e d
  ])
  with_outcome-IsSound now b tx (inr r) = inr (elim (Bool-cases (b && is_recoverable tx.status)) [
    | inl e ↦ rw e (record {
      soft = r.soft;
      balanced = record {
        count = r.balanced.count;
        numbered = r.balanced.numbered;
        cost = r.balanced.cost;
      };
      bounded = r.bounded;
      ended = inl refl;
    })
    | inr e ↦ rw e r
  ])

  pub All-replace :
      (P : Transaction F → Type 0) (tx : Transaction F) (ts : List (Transaction F))
      → P tx
      → All P ts
      → All P (replace tx ts)
  All-replace P tx [] h all = tt
  All-replace P tx (t ∷ ts) h (first, rest) = elim (Bool-cases (str_eq t.id tx.id)) [
    | inl e ↦ rw e (h, All-replace P tx ts h rest)
    | inr e ↦ rw e (first, All-replace P tx ts h rest)
  ]

  pub All-find :
      (P : Transaction F → Type 0) (id : String) (ts : List (Transaction F)) (tx : Transaction F)
      → find id ts ≡ some tx
      → All P ts
      → P tx
  All-find P id [] tx e all = cc
  All-find P id (t ∷ ts) tx e (first, rest) = elim (Bool-cases (str_eq t.id id)) [
    | inl same ↦ subst P (some-injective _ _ (rw same at e)) first
    | inr other ↦ All-find P id ts tx (rw other at e) rest
  ]
